-- ===== src/Files.antt =====
-- internal/files/manager.go: the path of a request below a cell's directory; and the same check of
-- internal/backup/manager.go. The working directory is what `filepath.Abs` starts from.
pub mod Inside
pub mod Listing
pub mod Operations
pub mod RecycleBin
use hive_worker.Base.{Text, [], ◌==◌, text_eq, Result, ok, err, if◌then◌else◌}
use hive_worker.Go.Path.{dot, clean, join_paths, abs, rel, is_outside}

pub data Error : Type 0 where
  invalid_path : Error
  invalid_backup_path : Error
  disk_failure : Error
  not_a_directory : Error
  refused : Text → Error

-- The requested path, cleaned; the directory itself is the empty path.
abbrev pub clean_path : Text → Text
clean_path requested = let path = clean requested in if path == dot then [] else path

unfoldable pub safe_path : Text → Text → Text → Result Error Text
safe_path working_directory base_dir requested =
    let abs_base = abs working_directory base_dir in
    let abs_full = abs working_directory (join_paths abs_base (clean_path requested)) in
    if is_outside (rel abs_base abs_full) then err invalid_path else ok abs_full

-- `ensurePathWithinBase` of the backup manager
unfoldable pub ensure_path_within_base : Text → Text → Text → Result Error (Unit {0})
ensure_path_within_base working_directory base_path target_path =
    if is_outside (rel (abs working_directory base_path) (abs working_directory target_path))
    then err invalid_backup_path
    else ok tt
