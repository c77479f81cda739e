-- ===== src/Backup/Mount/Extract.antt =====
-- internal/backup/mount_service.go: an archive is unpacked into a directory of its own.
use hive_worker.Base.{
  ℕ, ◌+◌, Text, Bool, not, ◌&&◌, ◌||◌, Option, none, some, List, [], ◌∷◌, ◌++◌, ◌==◌, text_eq,
  if◌then◌else◌, Result, ok, err, ◌>>=◌, ◌>>◌, fail_if,
}
use hive_worker.Go.Text.{codes, is_empty, has_prefix, trim_prefix}
use hive_worker.Go.Int.{ℤ, pos, negsuc}
use hive_worker.Go.Path.{clean, dir, dot, is_rooted, is_outside, join_paths, abs}
use hive_worker.Backup.{with_slashes}
use hive_worker.Backup.Mount.{
  Call, mkdir_all, remove_all, write_file, move, Error, unsafe_archive_path, unsupported_entry,
  negative_size, read_failure, disk_failure, mount_already_exists, invalid_mount_id,
  invalid_backup_id, Stat, missing, a_directory, a_file, a_link, a_device, unknown, MountService,
  MountResult, is_safe_identifier, resolve_backup_archive, resolve_mount_path, mounting,
}

unfoldable pub secure_archive_destination : Text → Text → Result Error Text
secure_archive_destination root entry_name =
    let name = clean (trim_prefix (with_slashes entry_name) (codes "/")) in
    let destination = clean (join_paths root name) in
    if name == dot || is_empty name
    then ok root
    else if is_rooted name
    then err unsafe_archive_path
    else if is_outside name
    then err unsafe_archive_path
    else if not (destination == root) && not (has_prefix destination (root ++ codes "/"))
    then err unsafe_archive_path
    else ok destination

pub data Kind : Type 0 where
  directory : Kind
  regular : Kind
  special : Kind

pub record TarEntry : Type 0 where
  pub name : Text
  pub kind : Kind
  pub size : ℤ
  pub works : Bool

-- The calls made so far and the size so far, and the error that ended it.
pub record Progress : Type 0 where
  pub calls : List Call
  pub size : ℕ
  pub failure : Option Error

abbrev pub stopped : Error → ℕ → List Call → Progress
stopped e size calls = record { calls = calls; size = size; failure = some e }

abbrev pub before : List Call → Progress → Progress
before calls p = record p { calls = calls ++ p.calls }

-- A file, with the directory that holds it; a file that cannot be written is removed.
abbrev pub extract_file : Text → ℤ → Bool → ℕ → (ℕ → Progress) → Progress
extract_file path (negsuc n) works size later = stopped negative_size size []
extract_file path (pos n) works size later =
    let done = before (mkdir_all (dir path) ∷ write_file path n ∷ []) (later (size + n)) in
    if works
    then done
    else stopped disk_failure size (mkdir_all (dir path) ∷ write_file path n ∷ remove_all path ∷ [])

abbrev pub extract_entry : Text → Kind → ℤ → Bool → ℕ → (ℕ → Progress) → Progress
extract_entry path directory entry_size works size later =
    let done = before (mkdir_all path ∷ []) (later size) in
    if works then done else stopped disk_failure size (mkdir_all path ∷ [])
extract_entry path regular entry_size works size later =
    extract_file path entry_size works size later
extract_entry path special entry_size works size later = stopped unsupported_entry size []

abbrev extract_at : Result Error Text → TarEntry → ℕ → (ℕ → Progress) → Progress
extract_at (err e) entry size later = stopped e size []
extract_at (ok path) entry size later =
    extract_entry path entry.kind entry.size entry.works size later

-- The loop over the entries; `stream_fails` says that the archive cannot be read to its end.
unfoldable pub extract_entries : Text → Bool → List TarEntry → ℕ → Progress
extract_entries root stream_fails [] size = record {
  calls = [];
  size = size;
  failure = if stream_fails then some read_failure else none;
}
extract_entries root stream_fails (entry ∷ rest) size =
    extract_at (secure_archive_destination root entry.name) entry size
      (extract_entries root stream_fails rest)

-- An archive that can be opened: its entries, and whether the stream breaks after them.
pub record Archive : Type 0 where
  pub entries : List TarEntry
  pub breaks : Bool

unfoldable pub extract_tar_gzip_securely : Text → Text → Option Archive → Progress
extract_tar_gzip_securely working_directory root none = stopped read_failure 0 []
extract_tar_gzip_securely working_directory root (some archive) =
    extract_entries (abs working_directory root) archive.breaks archive.entries 0

abbrev pub finish_mount : Bool → Text → Progress → List Call × Result Error MountResult
finish_mount rename_fails path p = elim p.failure [
  | some e ↦ (p.calls ++ (remove_all (mounting path) ∷ []), err e)
  | none ↦
      if rename_fails
      then (
        p.calls ++ (move (mounting path) path ∷ remove_all (mounting path) ∷ []),
        err disk_failure,
      )
      else (
        p.calls ++ (move (mounting path) path ∷ []),
        ok (record { path = path; extracted_size = p.size }),
      )
]

-- Which of the calls that `Mount` makes itself fail: those that make the cell's directory, remove a
-- stale temporary directory, make the temporary one, and move it to its place.
pub record MountFailures : Type 0 where
  pub cell_directory : Bool
  pub stale : Bool
  pub temporary : Bool
  pub rename : Bool

-- The calls before the unpacking; each stops the mount where it fails, and nothing is cleared away.
abbrev pub prepare_mount :
    MountFailures
    → Text
    → List Call × Result Error MountResult
    → List Call × Result Error MountResult
prepare_mount fails path (calls, result) =
    let first = mkdir_all (dir path) ∷ [] in
    let second = first ++ (remove_all (mounting path) ∷ []) in
    let third = second ++ (mkdir_all (mounting path) ∷ []) in
    if fails.cell_directory
    then (first, err disk_failure)
    else if fails.stale
    then (second, err disk_failure)
    else if fails.temporary
    then (third, err disk_failure)
    else (third ++ calls, result)

abbrev pub mount_at :
    Text → MountFailures → Option Archive → Text → Stat → List Call × Result Error MountResult
mount_at working_directory fails archive path missing = prepare_mount fails path (
    finish_mount fails.rename path
      (extract_tar_gzip_securely working_directory (mounting path) archive))
mount_at working_directory fails archive path unknown = ([], err disk_failure)
mount_at working_directory fails archive path a_directory = ([], err mount_already_exists)
mount_at working_directory fails archive path a_file = ([], err mount_already_exists)
mount_at working_directory fails archive path a_link = ([], err mount_already_exists)
mount_at working_directory fails archive path a_device = ([], err mount_already_exists)

abbrev pub resolved : (Text → Stat) → MountService → Text → Text → Text → Result Error (Text × Text)
resolved stat s cell_id backup_id mount_id = do
  fail_if (not (is_safe_identifier cell_id)) invalid_mount_id
  fail_if (not (is_safe_identifier backup_id)) invalid_backup_id
  fail_if (not (is_safe_identifier mount_id)) invalid_mount_id
  archive_path ← resolve_backup_archive stat cell_id backup_id s
  path ← resolve_mount_path cell_id mount_id s
  ok (archive_path, path)

-- `archives` gives what can be read of an archive at a path.
unfoldable pub mount :
    (Text → Stat)
    → (Text → Option Archive)
    → Text
    → MountFailures
    → Text
    → Text
    → Text
    → MountService
    → List Call × Result Error MountResult
mount stat archives working_directory fails cell_id backup_id mount_id s =
    elim (resolved stat s cell_id backup_id mount_id) [
      | err e ↦ ([], err e)
      | ok (archive_path, path) ↦
          mount_at working_directory fails (archives archive_path) path (stat path)
    ]
