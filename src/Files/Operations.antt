-- ===== src/Files/Operations.antt =====
-- internal/files/manager.go: files are read, written, renamed and deleted below a directory.
-- An operation gives the calls of the disk that it makes, in order, until one of them fails; what
-- `os.Stat` answers is a parameter.
pub mod Within
use hive_worker.Base.{
  ℕ, Text, Bool, true, false, not, ◌||◌, Option, none, some, List, [], ◌∷◌, if◌then◌else◌, Result,
  ok, err, ◌>>=◌, ◌>>◌, fail_if, ltb, leb,
}
use hive_worker.Go.Text.{codes, is_empty}
use hive_worker.Go.Path.{dir}
use hive_worker.Files.{Error, safe_path, refused, disk_failure}

pub data Call : Type 0 where
  read_file : Text → Call
  write_file : Text → Text → Call
  create_new : Text → Call
  truncate : Text → Call
  remove_all : Text → Call
  mkdir_all : Text → Call
  move : Text → Text → Call

-- The answer of `os.Stat`.
pub data Stat : Type 0 where
  a_directory : Stat
  a_file : Stat
  missing : Stat
  unknown : Stat

-- `EnsureParentDir`
abbrev pub ensure_parent_dir : Text → Call
ensure_parent_dir path = mkdir_all (dir path)

module _ (working_directory base_dir : Text) where
  unfoldable pub read : Text → Result Error (List Call)
  read requested = do
    full_path ← safe_path working_directory base_dir requested
    ok (read_file full_path ∷ [])

  -- `Write`, and `WriteBytes`, which does the same with bytes.
  unfoldable pub write : Text → Text → Result Error (List Call)
  write requested content = do
    full_path ← safe_path working_directory base_dir requested
    ok (ensure_parent_dir full_path ∷ write_file full_path content ∷ [])

  unfoldable pub delete : Text → Result Error (List Call)
  delete requested = do
    full_path ← safe_path working_directory base_dir requested
    ok (remove_all full_path ∷ [])

  unfoldable pub create_folder : Text → Result Error (List Call)
  create_folder requested = do
    full_path ← safe_path working_directory base_dir requested
    ok (mkdir_all full_path ∷ [])

  unfoldable pub rename : Text → Text → Result Error (List Call)
  rename old_path new_path = do
    old_full_path ← safe_path working_directory base_dir old_path
    new_full_path ← safe_path working_directory base_dir new_path
    ok (ensure_parent_dir new_full_path ∷ move old_full_path new_full_path ∷ [])

  module _ (stat : Text → Stat) where
    abbrev downloadable : Text → Stat → Result Error Text
    downloadable path a_directory = err (refused (codes "cannot download a folder"))
    downloadable path a_file = ok path
    downloadable path missing = err disk_failure
    downloadable path unknown = err disk_failure

    -- The path of a file that the caller then reads.
    unfoldable pub download_path : Text → Result Error Text
    download_path requested = do
      full_path ← safe_path working_directory base_dir requested
      downloadable full_path (stat full_path)

    abbrev is_free : Stat → Result Error (Unit {0})
    is_free a_directory = err (refused (codes "file already exists"))
    is_free a_file = err (refused (codes "file already exists"))
    is_free missing = ok tt
    is_free unknown = err disk_failure

    unfoldable pub create_file : Text → Result Error (List Call)
    create_file requested = do
      full_path ← safe_path working_directory base_dir requested
      is_free (stat full_path)
      ok (ensure_parent_dir full_path ∷ create_new full_path ∷ [])

  -- The status of the answer and its body, or nothing.
  abbrev pub downloaded : Option (ℕ × Text) → Text → List Call
  downloaded none path = []
  downloaded (some (status, body)) path =
      if ltb status 200 || leb 300 status then [] else truncate path ∷ write_file path body ∷ []

  -- `UploadFromURL`; where the download fails, so does the operation, after the calls it made.
  unfoldable pub upload_from_url : Text → Text → Option (ℕ × Text) → Result Error (List Call)
  upload_from_url requested url answer = do
    fail_if (is_empty url) (refused (codes "url is required"))
    full_path ← safe_path working_directory base_dir requested
    ok (ensure_parent_dir full_path ∷ downloaded answer full_path)
