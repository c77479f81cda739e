-- ===== src/Tests/Files.antt =====
-- Paths of file requests.
use hive_worker.Base.{
  Text, false, Option, some, List, [], ◌∷◌, All, arith, if◌then◌else◌, ◌==◌, ◌≡◌, refl, true, ok,
  err, text_eq, ℕ_discrete,
}
use hive_worker.Go.Text.{codes}
use hive_worker.Go.Path.{is_rooted, components, clean, join_paths, abs, rel, is_outside}
use hive_worker.Go.Path.Inside.{Extends}
use hive_worker.Files.{clean_path, safe_path, ensure_path_within_base, invalid_path}
use hive_worker.Go.Text.{trim_suffix, trim_right}
use hive_worker.Go.Int.{pos}
use hive_worker.Go.Decimal.{format_uint}
use hive_worker.Go.Path.{dir}
use hive_worker.Go.Path.Names.{base_name, ext}
use hive_worker.Files.Listing.{
  DirEntry, FileInfo, directory, file_entries, page_size, total_pages_of,
}
use mathlib.Core.List.{Perm}
use hive_worker.Files.Listing.Order.{IsListedInOrder}
use hive_worker.Files.Listing.Pages.{listed, listed_all}
use hive_worker.Files.Operations.{Stat, a_file, missing, remove_all, delete}
use hive_worker.Files.Operations.Within.{IsWithin, deletes, perform-IsWithin}
use hive_worker.Files.RecycleBin.{unique_recycle_path, numbered}
use hive_worker.Files.RecycleBin.Unique.{IsFree, unique_recycle_path-IsFree}
use hive_worker.Files.Inside.{safe_path_iff}

working_directory_rooted : is_rooted (codes "/srv") ≡ true
unfolding is_rooted ℕ_discrete
working_directory_rooted = refl

climbing_refused :
    safe_path (codes "/srv") (codes "cells/a") (codes "../b/x.txt") ≡ err invalid_path
unfolding safe_path is_outside rel clean join_paths abs text_eq ℕ_discrete
climbing_refused = refl

absolute_kept_inside :
    safe_path (codes "/srv") (codes "cells/a") (codes "/../b") ≡ ok (codes "/srv/cells/a/b")
unfolding safe_path is_outside rel clean join_paths abs text_eq ℕ_discrete
absolute_kept_inside = refl

safe_path_iff_example :
    (codes "/srv/cells/a/b"
      ≡ join_paths (abs (codes "/srv") (codes "cells/a")) (clean_path (codes "/../b")))
    × Extends
        (components (codes "/srv/cells/a/b"))
        (components (abs (codes "/srv") (codes "cells/a")))
safe_path_iff_example =
    (safe_path_iff (codes "/srv") (codes "cells/a") (codes "/../b") (codes "/srv/cells/a/b")
        working_directory_rooted).0
      absolute_kept_inside

within :
    ensure_path_within_base (codes "/srv") (codes "backups") (codes "/srv/backups/a/1.tar") ≡ ok tt
unfolding ensure_path_within_base is_outside rel clean join_paths abs text_eq ℕ_discrete
within = refl

abbrev two_entries : List DirEntry
two_entries =
    record { name = codes "b"; is_dir = false } ∷ record { name = codes "a"; is_dir = true } ∷ []

abbrev no_info : DirEntry → Option FileInfo
no_info entry = some (record { size = pos 0; modified_at = [] })

listed_all_example :
    (all : List DirEntry) × Perm all two_entries
    × IsListedInOrder (λ name. name) all
    × (listed
          (λ name. name)
          (λ _. directory (some two_entries))
          no_info
          (codes "/srv")
          (codes "cells/a")
          (codes "/../b")
          (codes "/srv/cells/a/b")
          (pos 1)
          two_entries
          absolute_kept_inside
          refl
          (total_pages_of (page_size (pos 1)) 2)
        ≡ file_entries no_info (codes "/../b") all)
listed_all_example =
    listed_all (λ name. name) (λ _. directory (some two_entries)) no_info (codes "/srv")
      (codes "cells/a") (codes "/../b") (codes "/srv/cells/a/b") (pos 1) two_entries
      absolute_kept_inside refl

deleted :
    delete (codes "/srv") (codes "cells/a") (codes "/../b")
    ≡ ok (remove_all (codes "/srv/cells/a/b") ∷ [])
unfolding delete
deleted = rw absolute_kept_inside refl

perform-IsWithin_example :
    All
      (IsWithin (λ _. a_file) (codes "/srv") (codes "cells/a"))
      (remove_all (codes "/srv/cells/a/b") ∷ [])
perform-IsWithin_example =
    perform-IsWithin (λ _. a_file) (codes "/srv") (codes "cells/a") working_directory_rooted
      (deletes (codes "/../b")) (remove_all (codes "/srv/cells/a/b") ∷ []) deleted

-- Only the path itself is taken.
abbrev taken : Text → Stat
taken path = if path == codes "/r/a.txt" then a_file else missing

second-IsFree : IsFree taken (codes "now") (numbered (codes "now") (codes "/r/a.txt") 2)
unfolding base_name ext dir trim_suffix join_paths clean text_eq ℕ_discrete trim_right format_uint
second-IsFree = refl

unique_recycle_path-IsFree_example :
    (target : Text) × (unique_recycle_path taken (codes "now") 1 (codes "/r/a.txt") ≡ some target)
    × IsFree taken (codes "now") target
unique_recycle_path-IsFree_example =
    unique_recycle_path-IsFree taken (codes "now") 1 (codes "/r/a.txt") 0 second-IsFree
      (omega arith)

stamped_name :
    unique_recycle_path taken (codes "now") 1 (codes "/r/a.txt")
    ≡ some (codes "/r/a (deleted now).txt")
unfolding unique_recycle_path base_name ext dir trim_suffix join_paths clean text_eq ℕ_discrete
    trim_right
stamped_name = refl
