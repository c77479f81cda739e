-- ===== src/Sftp/Jail.antt =====
-- internal/sftp/filesystem.go: the path jail.
pub mod Inside
pub mod Links
pub mod Resolve
use hive_worker.Base.{
  Text, Bool, true, false, not, ◌&&◌, ◌||◌, List, [], ◌∷◌, ◌==◌, text_eq, Result, ok, err, ◌>>=◌,
  ◌>>◌, fail_if, if◌then◌else◌,
}
use hive_worker.Go.Text.{codes, is_empty, trim_space, trim_prefix, split}
use hive_worker.Go.Path.{slash, dot, clean, join_paths, abs, rel, is_outside, dir}
use hive_worker.Sftp.{
  Permissions, Filesystem, FileInfo, DiskError, not_exist, other, Error, permission_denied,
  links_unsupported, root_not_directory, disk,
}

-- `JailHandlerFactory.Create`, in a working directory.
unfoldable pub create :
    Text → (Text → Result DiskError FileInfo) → Text → Permissions → Result Error Filesystem
create working_directory stat root permissions =
    let absolute_root = abs working_directory root in
    elim (stat absolute_root) [
      | err e ↦ err (disk e)
      | ok info ↦
          if not info.is_dir
          then err root_not_directory
          else ok (record { root = clean absolute_root; permissions = permissions })
    ]

unfoldable pub is_root : Filesystem → Text → Bool
is_root fs resolved = clean resolved == fs.root

unfoldable pub ensure_inside_root : Filesystem → Text → Result Error (Unit {0})
ensure_inside_root fs resolved = fail_if (is_outside (rel fs.root resolved)) permission_denied

unfoldable pub resolve_virtual_path : Filesystem → Text → Result Error Text
unfolding ensure_inside_root
resolve_virtual_path fs virtual_path =
    let trimmed = trim_space virtual_path in
    let path = if is_empty trimmed then codes "/" else trimmed in
    let cleaned = clean (slash ∷ trim_prefix path (codes "/")) in
    let relative = trim_prefix cleaned (codes "/") in
    let resolved = clean (join_paths fs.root relative) in
    do ensure_inside_root fs resolved; ok resolved

abbrev pub reject_link : FileInfo → Result Error (Unit {0})
reject_link info = fail_if info.is_symlink links_unsupported

abbrev pub from_disk {ℓ} : {A : Type ℓ} → Result DiskError A → Result Error A
from_disk (ok a) = ok a
from_disk (err e) = err (disk e)

module _ (lstat : Text → Result DiskError FileInfo) where
  -- The loop of `rejectSymlinkComponents`.
  unfoldable pub reject_links_from : Bool → Text → List Text → Result Error (Unit {0})
  reject_links_from include_final current [] = ok tt
  reject_links_from include_final current (component ∷ rest) =
      let skipped = reject_links_from include_final current rest in
      let next = join_paths current component in
      let later = reject_links_from include_final next rest in
      if is_empty component || component == dot
      then skipped
      else if not include_final && is_empty rest
      then ok tt
      else do info ← from_disk (lstat next); reject_link info; later

  unfoldable pub reject_symlink_components : Filesystem → Text → Bool → Result Error (Unit {0})
  unfolding reject_links_from
  reject_symlink_components fs resolved include_final =
      let relative = rel fs.root resolved in
      do
        ensure_inside_root fs resolved
        (if relative == dot
            then ok tt
            else reject_links_from include_final fs.root (split slash relative))

  -- The argument `allowRoot` of the source has no effect.
  unfoldable pub resolve_existing : Filesystem → Text → Result Error Text
  unfolding reject_symlink_components
  resolve_existing fs virtual_path = do
    resolved ← resolve_virtual_path fs virtual_path
    reject_symlink_components fs resolved true
    ok resolved

  -- A link is refused, a path that does not exist is not.
  abbrev pub reject_existing_link : Result DiskError FileInfo → Result Error (Unit {0})
  reject_existing_link (ok info) = reject_link info
  reject_existing_link (err not_exist) = ok tt
  reject_existing_link (err (other e)) = err (disk (other e))

  unfoldable pub resolve_for_write : Filesystem → Text → Result Error Text
  unfolding reject_symlink_components
  resolve_for_write fs virtual_path = do
    resolved ← resolve_virtual_path fs virtual_path
    fail_if (is_root fs resolved) permission_denied
    reject_symlink_components fs (dir resolved) true
    reject_existing_link (lstat resolved)
    ok resolved
