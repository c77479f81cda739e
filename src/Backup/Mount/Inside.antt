-- ===== src/Backup/Mount/Inside.antt =====
-- internal/backup/mount_service.go: an archive, whatever names its entries have, is unpacked below the
-- directory that it is unpacked into.
use hive_worker.Base.{
  ℕ, ◌+◌, Text, ◌≡◌, ◌≢◌, refl, sym, ap, ◌∙◌, Bool, true, false, not, ◌&&◌, ◌||◌, List, [], ◌∷◌,
  ◌++◌, All, ◌==◌, text_eq, Option, some, none, ok, err, Result-cases, Bool-cases, inl, inr, ◌⊎◌,
  arith, if◌then◌else◌,
}
use mathlib.Core.List.{append-nil}
use hive_worker.Go.Text.{codes, is_empty, has_prefix, trim_prefix}
use hive_worker.Go.Int.{ℤ, pos, negsuc}
use hive_worker.Go.Path.{clean, dir, dot, is_rooted, is_outside, join_paths, components, abs}
use hive_worker.Go.Path.Components.{components-clean, is_rooted-join}
use hive_worker.Go.Path.Abs.{abs_rooted}
use hive_worker.Go.Path.Inside.{Extends}
use hive_worker.Backup.{with_slashes}
use hive_worker.Backup.ArchivePath.{clean-IsBelow}
use hive_worker.Backup.Mount.{Call, mkdir_all, remove_all, write_file, move, Error}
use hive_worker.Backup.Mount.Extract.{
  secure_archive_destination, TarEntry, Kind, directory, regular, special, Progress, Archive,
  extract_entries, extract_entry, extract_tar_gzip_securely,
}

split_destination :
    (root name destination path : Text)
    → (if name == dot || is_empty name
        then ok root
        else if is_rooted name
        then err Error.unsafe_archive_path
        else if is_outside name
        then err Error.unsafe_archive_path
        else if not (destination == root) && not (has_prefix destination (root ++ codes "/"))
        then err Error.unsafe_archive_path
        else ok destination)
      ≡ ok path
    → (path ≡ root) ⊎ ((name ≢ dot) × (is_outside name ≡ false) × (path ≡ destination))
split_destination root name destination path h = elim (Bool-cases (name == dot || is_empty name)) [
  | inl whole ↦ inl (ground arith)
  | inr part ↦ inr ((λ e. absurd (ground arith)), ground arith, ground arith)
]

module _ (root : Text) where
  abbrev pub IsInside : Text → Type 0
  IsInside path = Extends (components path) (components root)

  -- What is written lies inside; a directory that is made lies inside, or holds a path that does.
  abbrev pub IsWithin : Call → Type 0
  IsWithin (mkdir_all path) = IsInside path ⊎ ((inner : Text) × (path ≡ dir inner) × IsInside inner)
  IsWithin (remove_all path) = IsInside path
  IsWithin (write_file path size) = IsInside path
  IsWithin (move source target) = ⊥

module _ (root : Text) (rooted : is_rooted root ≡ true) where
  secure_archive_destination-IsInside :
      (entry_name path : Text)
      → secure_archive_destination root entry_name ≡ ok path
      → IsInside root path
  unfolding secure_archive_destination
  secure_archive_destination-IsInside entry_name path h =
      let name = clean (trim_prefix (with_slashes entry_name) (codes "/")) in
      elim (split_destination root name (clean (join_paths root name)) path h) [
        | inl whole ↦ ([], ap components whole ∙ sym (append-nil (components root)))
        | inr (ne, inside, same) ↦
            let (names, held) =
              clean-IsBelow root (trim_prefix (with_slashes entry_name) (codes "/")) rooted ne
                inside in
            (
              names,
              ap components same
                  ∙ components-clean (join_paths root name) (is_rooted-join root name rooted)
                  ∙ held.1,
            )
      ]

  extract_entry-IsWithin :
      (path : Text) (kind : Kind) (entry_size : ℤ) (works : Bool) (size : ℕ) (later : ℕ → Progress)
      → IsInside root path
      → ((n : ℕ) → All (IsWithin root) (later n).calls)
      → All (IsWithin root) (extract_entry path kind entry_size works size later).calls
  extract_entry-IsWithin path directory entry_size true size later h rest = (inl h, rest size)
  extract_entry-IsWithin path directory entry_size false size later h rest = (inl h, tt)
  extract_entry-IsWithin path regular (negsuc n) works size later h rest = tt
  extract_entry-IsWithin path regular (pos n) true size later h rest =
      (inr (path, refl, h), (h, rest (size + n)))
  extract_entry-IsWithin path regular (pos n) false size later h rest =
      (inr (path, refl, h), (h, (h, tt)))
  extract_entry-IsWithin path special entry_size works size later h rest = tt

  extract_entries-IsWithin :
      (breaks : Bool) (entries : List TarEntry) (size : ℕ)
      → All (IsWithin root) (extract_entries root breaks entries size).calls
  unfolding extract_entries
  extract_entries-IsWithin breaks [] size = tt
  extract_entries-IsWithin breaks (entry ∷ rest) size =
      elim (Result-cases (secure_archive_destination root entry.name)) [
        | inr (e, unsafe) ↦ rw unsafe tt
        | inl (path, safe) ↦ rw safe (
            extract_entry-IsWithin path entry.kind entry.size entry.works size
              (extract_entries root breaks rest)
              (secure_archive_destination-IsInside entry.name path safe)
              (extract_entries-IsWithin breaks rest))
      ]

-- Whatever the archive holds, each call that unpacks it into a directory, from an absolute working
-- directory, lies in that directory; a directory that it makes lies there or holds a path that does.
pub extract_tar_gzip_securely-IsWithin :
    (working_directory root : Text) (archive : Option Archive)
    → (rooted : is_rooted working_directory ≡ true)
    → All
        (IsWithin (abs working_directory root))
        (extract_tar_gzip_securely working_directory root archive).calls
unfolding extract_tar_gzip_securely
extract_tar_gzip_securely-IsWithin working_directory root none rooted = tt
extract_tar_gzip_securely-IsWithin working_directory root (some archive) rooted =
    extract_entries-IsWithin (abs working_directory root) (abs_rooted working_directory root rooted)
      archive.breaks archive.entries 0
