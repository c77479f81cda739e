-- ===== src/Tests/Mount.antt =====
-- The mounting of backups.
use hive_worker.Base.{
  Result, ◌≡◌, refl, true, false, some, ok, [], ◌∷◌, List, ◌++◌, All, Text, ℕ_discrete, text_eq,
  ◌↔◌, ◌==◌, if◌then◌else◌, arith,
}
use hive_worker.Go.Text.{codes, trim_space, split}
use hive_worker.Go.Int.{pos}
use hive_worker.Go.Path.{components, clean, join_paths, is_outside, rel, abs, is_rooted, absolute}
use hive_worker.Go.Path.Components.{IsName}
use hive_worker.Backup.Mount.{
  Error, MountService, mount_path, is_safe_identifier, resolve_mount_path, Stat, missing,
  a_directory, a_file,
}
use hive_worker.Backup.Mount.Extract.{
  MountFailures, Archive, regular, directory, extract_tar_gzip_securely,
}
use hive_worker.Backup.Mount.Restore.{
  check_parents, restore_paths, clean_restore_path, secure_restore_join,
}
use hive_worker.Backup.Mount.Target.{restore_paths-IsBelow}
use hive_worker.Backup.Mount.Inside.{IsWithin, extract_tar_gzip_securely-IsWithin}
use hive_worker.Backup.Mount.Parents.{IsClear, check_parents_iff}

abbrev world : Archive
world = record {
  entries =
      record { name = codes "world/"; kind = directory; size = pos 0; works = true }
      ∷ record { name = codes "world/level.dat"; kind = regular; size = pos 7; works = true }
      ∷ [];
  breaks = false;
}

extract_tar_gzip_securely-IsWithin_example :
    All
      (IsWithin (abs (codes "/srv") (codes "mounts/a")))
      (extract_tar_gzip_securely (codes "/srv") (codes "mounts/a") (some world)).calls
extract_tar_gzip_securely-IsWithin_example =
    extract_tar_gzip_securely-IsWithin (codes "/srv") (codes "mounts/a") (some world)
      (unfold is_rooted ℕ_discrete in refl)

abbrev service : MountService
service = record { backups_root = codes "/b"; mounts_root = codes "/m" }

-- One archive is there, and nothing is mounted.
abbrev stat : Text → Stat
stat path = if path == codes "/b/cell/day.tgz" then a_file else missing

-- The first call fails on this disk.
abbrev full_disk : MountFailures
full_disk = record { cell_directory = true; stale = false; temporary = false; rename = false }

abbrev good_disk : MountFailures
good_disk = record full_disk { cell_directory = false }

c_IsName : All IsName (codes "c" ∷ [])
unfolding ℕ_discrete text_eq
c_IsName = ((refl, refl), tt)

d_IsName : All IsName (codes "d" ∷ [])
unfolding ℕ_discrete text_eq
d_IsName = ((refl, refl), tt)

check_parents_iff_example :
    (result : Result Error (Unit {0})) × (check_parents 2
        (absolute (codes "c" ∷ []))
        (λ _. a_directory)
        (absolute (codes "c" ∷ codes "d" ∷ []))
      ≡ some result)
    × ((result ≡ ok tt) ↔ IsClear (λ _. a_directory) (codes "c" ∷ []) c_IsName (codes "d" ∷ []))
check_parents_iff_example =
    check_parents_iff (λ _. a_directory) (codes "c" ∷ []) c_IsName 2 (codes "d" ∷ []) d_IsName
      (omega arith)

-- The mount is there.
abbrev mounted_stat : Text → Stat
mounted_stat path = if path == codes "/m/cell/one" then a_directory else missing

restored :
    restore_paths 9
      (codes "/")
      (codes "/c")
      mounted_stat
      (codes "cell")
      (codes "one")
      (codes "/a/b/")
      service
    ≡ ok (codes "/m/cell/one/a/b", codes "/c/a/b")
unfolding restore_paths trim_space clean_restore_path text_eq split mount_path is_safe_identifier
    resolve_mount_path clean join_paths secure_restore_join is_outside rel abs
restored = refl

restore_paths-IsBelow_example :
    (mount_root : Text) × (names : List Text) × (All IsName names
      × ((mount_path mounted_stat (trim_space (codes "cell")) (trim_space (codes "one")) service
            ≡ ok mount_root)
          × ((components (codes "/m/cell/one/a/b")
                ≡ components (abs (codes "/") mount_root) ++ names)
              × (components (codes "/c/a/b")
                  ≡ components (abs (codes "/") (codes "/c")) ++ names))))
restore_paths-IsBelow_example =
    restore_paths-IsBelow (codes "/") (unfold is_rooted ℕ_discrete in refl) 9 (codes "/c")
      mounted_stat (codes "cell") (codes "one") (codes "/a/b/") service (codes "/m/cell/one/a/b")
      (codes "/c/a/b") restored
