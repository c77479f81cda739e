-- ===== src/Backup/Mount.antt =====
-- internal/backup/mount_service.go: a backup is unpacked beside the cell, looked at, and parts of it are
-- restored. What the disk and the archive hold are arguments; operations give the calls of the disk
-- that they make, in order. The readers of gzip and tar are third-party: an archive is the list of
-- its entries, each with whether the calls made for it succeed, and how the stream ends.
pub mod Extract
pub mod Parents
pub mod Restore
pub mod Outcome
pub mod Inside
pub mod Target
use hive_worker.Base.{
  ℕ, ◌+◌, Text, Bool, true, false, not, ◌&&◌, ◌||◌, Option, none, some, List, [], ◌∷◌, ◌++◌, ◌==◌,
  text_eq, ltb, if◌then◌else◌, Result, ok, err, ◌>>=◌, ◌>>◌, fail_if,
}
use hive_worker.Go.Text.{codes, is_empty, trim_space, has_prefix, trim_prefix}
use hive_worker.Go.Path.{clean, dir, dot, is_rooted, is_outside, join_paths, abs, slash}
use hive_worker.Backup.{all_valid, byte_length, with_slashes}

pub data Error : Type 0 where
  empty_root : Error
  invalid_mount_id : Error
  invalid_backup_id : Error
  backup_not_found : Error
  mount_already_exists : Error
  not_mounted : Error
  not_a_directory : Error
  unsafe_archive_path : Error
  unsupported_entry : Error
  negative_size : Error
  read_failure : Error
  disk_failure : Error
  required : Text → Error

pub record MountService : Type 0 where
  pub backups_root : Text
  pub mounts_root : Text

pub record MountResult : Type 0 where
  pub path : Text
  pub extracted_size : ℕ

pub data Call : Type 0 where
  mkdir_all : Text → Call
  remove_all : Text → Call
  write_file : Text → ℕ → Call
  move : Text → Text → Call

-- The answer of `os.Stat` or `os.Lstat`.
pub data Stat : Type 0 where
  a_directory : Stat
  a_file : Stat
  a_link : Stat
  a_device : Stat
  missing : Stat
  unknown : Stat

unfoldable pub new_mount_service : Text → Bool → Text → Text → Result Error MountService
new_mount_service working_directory mkdir_fails backups_root mounts_root = do
  fail_if (is_empty (trim_space backups_root)) empty_root
  fail_if (is_empty (trim_space mounts_root)) empty_root
  fail_if mkdir_fails disk_failure
  ok (record {
    backups_root = abs working_directory backups_root;
    mounts_root = abs working_directory mounts_root;
  })

unfoldable pub is_safe_identifier : Text → Bool
is_safe_identifier value =
    let trimmed = trim_space value in
    if is_empty trimmed || ltb 128 (byte_length trimmed) then false else all_valid trimmed

unfoldable pub resolve_mount_path : Text → Text → MountService → Result Error Text
resolve_mount_path cell_id mount_id s =
    let root = clean (join_paths s.mounts_root cell_id) in
    let path = clean (join_paths (join_paths s.mounts_root cell_id) mount_id) in
    if path == root
    then err invalid_mount_id
    else if not (has_prefix path (root ++ codes "/"))
    then err invalid_mount_id
    else ok path

abbrev pub supported_backup_extensions : List Text
supported_backup_extensions = codes ".tgz" ∷ codes ".tar.gz" ∷ []

module _ (stat : Text → Stat) where
  abbrev pub first_of : Text → Stat → Result Error Text → Result Error Text
  first_of path a_directory later = later
  first_of path missing later = later
  first_of path unknown later = err disk_failure
  first_of path a_file later = ok path
  first_of path a_link later = ok path
  first_of path a_device later = ok path

  -- The loop over the extensions.
  unfoldable pub first_archive : Text → Text → List Text → Result Error Text
  first_archive root backup_id [] = err backup_not_found
  first_archive root backup_id (extension ∷ rest) =
      let path = join_paths root (backup_id ++ extension) in
      let later = first_archive root backup_id rest in first_of path (stat path) later

  unfoldable pub resolve_backup_archive : Text → Text → MountService → Result Error Text
  unfolding first_archive
  resolve_backup_archive cell_id backup_id s = do
    fail_if (not (is_safe_identifier cell_id)) invalid_backup_id
    fail_if (not (is_safe_identifier backup_id)) invalid_backup_id
    first_archive (join_paths s.backups_root cell_id) backup_id supported_backup_extensions

  abbrev mounted : Text → Stat → Result Error Text
  mounted path a_directory = ok path
  mounted path missing = err not_mounted
  mounted path unknown = err disk_failure
  mounted path a_file = err not_a_directory
  mounted path a_link = err not_a_directory
  mounted path a_device = err not_a_directory

  unfoldable pub mount_path : Text → Text → MountService → Result Error Text
  mount_path cell_id mount_id s = do
    fail_if (not (is_safe_identifier cell_id)) invalid_mount_id
    fail_if (not (is_safe_identifier mount_id)) invalid_mount_id
    path ← resolve_mount_path cell_id mount_id s
    mounted path (stat path)

abbrev pub mounting : Text → Text
mounting path = path ++ codes ".mounting"

unfoldable pub unmount : Text → Text → MountService → Result Error (List Call)
unmount cell_id mount_id s = do
  fail_if (not (is_safe_identifier cell_id)) invalid_mount_id
  fail_if (not (is_safe_identifier mount_id)) invalid_mount_id
  path ← resolve_mount_path cell_id mount_id s
  ok (remove_all path ∷ remove_all (mounting path) ∷ [])
