-- ===== src/Sftp/Commands.antt =====
-- internal/sftp/filesystem.go: reading, writing and the commands. A request has the fields that
-- the worker reads; a handler gives the calls that it makes of the disk, in their order, and
-- `perform` makes them.
pub mod Safety
use hive_worker.Base.{
  ℕ, ltb, ◌-◌, ◌%◌, ◌^◌, Text, Bool, true, false, not, ◌&&◌, ◌||◌, Option, none, some, List, [],
  ◌∷◌, ◌++◌, ◌==◌, text_eq, Result, ok, err, ◌>>=◌, ◌>>◌, fail_if, if◌then◌else◌,
}
use hive_worker.Go.Text.{codes}
use hive_worker.Go.Int.{ℤ, to_int64}
use hive_worker.Sftp.{
  Permissions, Filesystem, FileInfo, DiskError, Error, permission_denied, links_unsupported,
  cannot_read_directory, not_a_directory, path_is_a_directory, cannot_truncate_directory,
  unsupported_command,
}
use hive_worker.Sftp.Jail.{
  is_root, resolve_existing, resolve_for_write, reject_existing_link, reject_link, from_disk,
}

-- `os.O_RDWR` or `os.O_WRONLY`, and the further bits.
pub record OpenFlags : Type 0 where
  pub read_too : Bool
  pub create : Bool
  pub truncate : Bool
  pub exclusive : Bool

-- The calls of the package os that touch a path. A time is in seconds.
pub data Call : Type 0 where
  open_call : Text → Call
  open_file_call : Text → OpenFlags → ℕ → Call
  mkdir_call : Text → ℕ → Call
  remove_call : Text → Call
  rename_call : Text → Text → Call
  truncate_call : Text → ℤ → Call
  chmod_call : Text → ℕ → Call
  chtimes_call : Text → ℕ → ℕ → Call

pub record Pflags : Type 0 where
  pub read : Bool
  pub write : Bool
  pub creat : Bool
  pub trunc : Bool
  pub excl : Bool

-- The attributes of a request; a time that is `none` is Go's zero time.
pub record Attributes : Type 0 where
  pub size : ℕ
  pub mode : ℕ
  pub access_time : Option ℕ
  pub modification_time : Option ℕ

pub record AttrFlags : Type 0 where
  pub size : Bool
  pub permissions : Bool
  pub acmodtime : Bool

pub record Request : Type 0 where
  pub method : Text
  pub filepath : Text
  pub target : Text
  pub pflags : Pflags
  pub attributes : Option Attributes
  pub attr_flags : AttrFlags

-- `FileMode.Perm`
abbrev pub perm : ℕ → ℕ
perm mode = mode % 2 ^ 9

abbrev pub or_now : ℕ → Option ℕ → ℕ
or_now now none = now
or_now now (some t) = t

abbrev pub when : Bool → Call → List Call
when b call = if b then call ∷ [] else []

module _ (lstat : Text → Result DiskError FileInfo) (fs : Filesystem) where
  unfoldable pub fileread : Request → Result Error (List Call)
  fileread request = do
    fail_if (not fs.permissions.read) permission_denied
    resolved ← resolve_existing lstat fs request.filepath
    info ← from_disk (lstat resolved)
    reject_link info
    fail_if info.is_dir cannot_read_directory
    ok (open_call resolved ∷ [])

  abbrev pub open_flags : Pflags → OpenFlags
  open_flags flags = record {
    read_too = flags.read && flags.write;
    create = flags.creat;
    truncate = flags.trunc;
    exclusive = flags.excl;
  }

  -- The mode is 0644.
  unfoldable pub filewrite : Request → Result Error (List Call)
  filewrite request = do
    fail_if (not fs.permissions.write) permission_denied
    fail_if (request.pflags.creat && not fs.permissions.create) permission_denied
    resolved ← resolve_for_write lstat fs request.filepath
    ok (open_file_call resolved (open_flags request.pflags) 420 ∷ [])

  -- 0755, or the permission bits of the request
  abbrev pub mkdir_mode : Request → ℕ
  mkdir_mode request = elim request.attributes [
    | none ↦ 493
    | some attributes ↦ if request.attr_flags.permissions then perm attributes.mode else 493
  ]

  unfoldable pub mkdir : Request → Result Error (List Call)
  mkdir request = do
    fail_if (not fs.permissions.create) permission_denied
    resolved ← resolve_for_write lstat fs request.filepath
    ok (mkdir_call resolved (mkdir_mode request) ∷ [])

  unfoldable pub rmdir : Request → Result Error (List Call)
  rmdir request = do
    fail_if (not fs.permissions.delete) permission_denied
    resolved ← resolve_existing lstat fs request.filepath
    fail_if (is_root fs resolved) permission_denied
    info ← from_disk (lstat resolved)
    reject_link info
    fail_if (not info.is_dir) not_a_directory
    ok (remove_call resolved ∷ [])

  unfoldable pub remove : Request → Result Error (List Call)
  remove request = do
    fail_if (not fs.permissions.delete) permission_denied
    resolved ← resolve_existing lstat fs request.filepath
    fail_if (is_root fs resolved) permission_denied
    info ← from_disk (lstat resolved)
    reject_link info
    fail_if info.is_dir path_is_a_directory
    ok (remove_call resolved ∷ [])

  unfoldable pub rename : Request → Result Error (List Call)
  rename request = do
    fail_if (not fs.permissions.rename) permission_denied
    source ← resolve_existing lstat fs request.filepath
    target ← resolve_for_write lstat fs request.target
    fail_if (is_root fs source || is_root fs target) permission_denied
    info ← from_disk (lstat source)
    reject_link info
    reject_existing_link lstat (lstat target)
    ok (rename_call source target ∷ [])

  -- A size is an unsigned number of 64 bits, which `int64` reads as a signed one.
  abbrev pub setstat_calls : ℕ → Text → Attributes → AttrFlags → List Call
  setstat_calls now resolved attributes flags =
      when flags.size (truncate_call resolved (to_int64 attributes.size))
      ++ (when flags.permissions (chmod_call resolved (perm attributes.mode))
          ++ when flags.acmodtime (
              chtimes_call resolved (or_now now attributes.access_time)
                (or_now now attributes.modification_time)))

  unfoldable pub setstat : ℕ → Request → Result Error (List Call)
  setstat now request = do
    fail_if (not fs.permissions.write) permission_denied
    resolved ← resolve_existing lstat fs request.filepath
    info ← from_disk (lstat resolved)
    reject_link info
    elim request.attributes [
      | none ↦ ok []
      | some attributes ↦ do
        fail_if (request.attr_flags.size && info.is_dir) cannot_truncate_directory
        ok (setstat_calls now resolved attributes request.attr_flags)
    ]

  unfoldable pub filecmd : ℕ → Request → Result Error (List Call)
  filecmd now request =
      if request.method == codes "Mkdir"
      then mkdir request
      else if request.method == codes "Rmdir"
      then rmdir request
      else if request.method == codes "Remove"
      then remove request
      else if request.method == codes "Rename" || request.method == codes "PosixRename"
      then rename request
      else if request.method == codes "Setstat"
      then setstat now request
      else if request.method == codes "Symlink" || request.method == codes "Link"
      then err links_unsupported
      else err (unsupported_command request.method)

-- The calls are made until one fails.
unfoldable pub perform : (Call → Result DiskError (Unit {0})) → List Call → Result Error (Unit {0})
perform answer [] = ok tt
perform answer (call ∷ calls) = do from_disk (answer call); perform answer calls
