-- ===== src/Sftp/Listing.antt =====
-- internal/sftp/filesystem.go: listing and stat operations, and a listing read in pieces.
pub mod Paging
use hive_worker.Base.{
  ℕ, ◌+◌, Text, Bool, true, false, not, Option, none, some, List, [], ◌∷◌, ◌++◌, ◌==◌, text_eq,
  length, take, drop, leb, ltb, Result, ok, err, ◌>>=◌, ◌>>◌, fail_if, if◌then◌else◌,
}
use hive_worker.Go.Text.{codes}
use hive_worker.Go.Int.{ℤ, pos, negsuc}
use hive_worker.Sftp.{
  Filesystem, FileInfo, DiskError, Error, permission_denied, links_unsupported, not_a_directory,
  unsupported_list_operation, invalid_list_offset, eof,
}
use hive_worker.Sftp.Jail.{resolve_existing, reject_link, from_disk}

-- The loop over the entries: each entry's `Info` may fail, and links are left out.
unfoldable pub visible : List (Result DiskError FileInfo) → Result Error (List FileInfo)
visible [] = ok []
visible (entry ∷ entries) = do
  info ← from_disk entry
  infos ← visible entries
  ok (if info.is_symlink then infos else info ∷ infos)

module _ (lstat : Text → Result DiskError FileInfo)
    (read_dir : Text → Result DiskError (List (Result DiskError FileInfo))) (fs : Filesystem) where
  unfoldable pub list_directory : Text → Result Error (List FileInfo)
  unfolding visible
  list_directory virtual_path = do
    resolved ← resolve_existing lstat fs virtual_path
    info ← from_disk (lstat resolved)
    reject_link info
    fail_if (not info.is_dir) not_a_directory
    entries ← from_disk (read_dir resolved)
    visible entries

  unfoldable pub stat_path : Text → Result Error (List FileInfo)
  stat_path virtual_path = do
    resolved ← resolve_existing lstat fs virtual_path
    info ← from_disk (lstat resolved)
    reject_link info
    ok (info ∷ [])

  unfoldable pub filelist : Text → Text → Result Error (List FileInfo)
  unfolding list_directory stat_path
  filelist method filepath =
      if not fs.permissions.read
      then err permission_denied
      else if method == codes "List"
      then list_directory filepath
      else if method == codes "Stat"
      then stat_path filepath
      else if method == codes "Readlink"
      then err links_unsupported
      else err (unsupported_list_operation method)

-- `ListAt` with a destination of so many entries: what it copies, and its error if it has one.
unfoldable pub list_at : List FileInfo → ℕ → ℤ → List FileInfo × Option Error
list_at entries room (negsuc n) = ([], some invalid_list_offset)
list_at entries room (pos offset) =
    let copied = take room (drop offset entries) in
    if leb (length entries) offset
    then ([], some eof)
    else if leb (length entries) (offset + length copied)
    then (copied, some eof)
    else (copied, none)
