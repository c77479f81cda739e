-- ===== src/Sftp.antt =====
-- internal/sftp/filesystem.go: the paths and the commands of an SFTP client, kept inside a cell.
-- What the disk says of a path (`os.Lstat`, `os.Stat`, `os.ReadDir`) is a parameter, and what a
-- handler asks of the disk is the list of its calls, which Sftp.Commands makes one after another.
pub mod Jail
pub mod Commands
pub mod Listing
use hive_worker.Base.{ℕ, Text, Bool, Option, List}

-- The permissions that the panel gives with a login (internal/panel/sftp_auth.go).
pub record Permissions : Type 0 where
  pub read : Bool
  pub write : Bool
  pub create : Bool
  pub delete : Bool
  pub rename : Bool

pub record Filesystem : Type 0 where
  pub root : Text
  pub permissions : Permissions

-- What the worker reads of an `os.FileInfo`.
pub record FileInfo : Type 0 where
  pub name : Text
  pub is_symlink : Bool
  pub is_dir : Bool

pub data DiskError : Type 0 where
  not_exist : DiskError
  other : Text → DiskError

pub data Error : Type 0 where
  permission_denied : Error
  links_unsupported : Error
  root_not_directory : Error
  cannot_read_directory : Error
  not_a_directory : Error
  path_is_a_directory : Error
  cannot_truncate_directory : Error
  unsupported_command : Text → Error
  unsupported_list_operation : Text → Error
  invalid_list_offset : Error
  eof : Error
  disk : DiskError → Error
