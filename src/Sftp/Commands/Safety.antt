-- ===== src/Sftp/Commands/Safety.antt =====
-- Every call that a handler makes is permitted and stays in the jail.
use hive_worker.Base.{
  Result-cases, ℕ, Text, ◌≡◌, ◌≢◌, ◌⊎◌, refl, Bool, true, false, not, ◌&&◌, ◌||◌, Option, none,
  some, List, [], ◌∷◌, text_eq, Result, ok, err, ◌>>=◌, ◌>>◌, fail_if, All, All-append, arith,
  if◌then◌else◌, subst, inl, inr,
}
use hive_worker.Sftp.{
  Filesystem, FileInfo, DiskError, Error, permission_denied, links_unsupported,
  cannot_read_directory, not_a_directory, path_is_a_directory, cannot_truncate_directory,
}
use hive_worker.Sftp.Jail.{
  is_root, resolve_existing, resolve_for_write, from_disk, reject_existing_link,
}
use hive_worker.Sftp.Jail.Inside.{IsJail}
use hive_worker.Sftp.Jail.Resolve.{
  IsJailed, resolve_existing-IsJailed, resolve_for_write-IsJailed, ok_eq, root_path-is_root,
}
use hive_worker.Sftp.Commands.{
  Call, OpenFlags, open_call, open_file_call, mkdir_call, remove_call, rename_call, truncate_call,
  chmod_call, chtimes_call, Attributes, AttrFlags, Request, fileread, filewrite, mkdir, rmdir,
  remove, rename, setstat, setstat_calls, when, filecmd, open_flags, mkdir_mode,
}

module _ (lstat : Text → Result DiskError FileInfo) (fs : Filesystem) where
  -- A path in the jail that is not the root.
  abbrev IsBelow : Text → Type 0
  IsBelow path = IsJailed lstat fs path × (path ≢ fs.root)

  -- What a call needs.
  abbrev pub IsAllowed : Call → Type 0
  IsAllowed (open_call path) = (fs.permissions.read ≡ true) × IsJailed lstat fs path
  IsAllowed (open_file_call path flags mode) =
      (fs.permissions.write ≡ true)
      × ((flags.create ≡ true → fs.permissions.create ≡ true) × IsJailed lstat fs path)
  IsAllowed (mkdir_call path mode) = (fs.permissions.create ≡ true) × IsJailed lstat fs path
  IsAllowed (remove_call path) = (fs.permissions.delete ≡ true) × IsBelow path
  IsAllowed (rename_call source target) =
      (fs.permissions.rename ≡ true) × (IsBelow source × IsBelow target)
  IsAllowed (truncate_call path size) = (fs.permissions.write ≡ true) × IsJailed lstat fs path
  IsAllowed (chmod_call path mode) = (fs.permissions.write ≡ true) × IsJailed lstat fs path
  IsAllowed (chtimes_call path accessed modified) =
      (fs.permissions.write ≡ true) × IsJailed lstat fs path

  -- Everything that a handler asks for is allowed.
  abbrev AllAllowed : Result Error (List Call) → Type 0
  AllAllowed answer = (calls : List Call) → answer ≡ ok calls → All IsAllowed calls

  needs : (a b : Bool) → (a && not b) ≡ false → a ≡ true → b ≡ true
  needs a b h p = ground arith

  after {ℓ} :
      {A : Type ℓ} (m : Result Error A) (f : A → Result Error (List Call))
      → ((a : A) → m ≡ ok a → AllAllowed (f a))
      → AllAllowed (m >>= f)
  after (ok a) f h calls p = h a refl calls p
  after (err e) f h calls p = absurd (cc)

  after_check :
      (b : Bool) (e : Error) (k : Result Error (List Call))
      → (b ≡ false → AllAllowed k)
      → AllAllowed (fail_if b e >> k)
  after_check true e k h calls p = absurd (cc)
  after_check false e k h calls p = h refl calls p

  after_permission :
      (b : Bool) (e : Error) (k : Result Error (List Call))
      → (b ≡ true → AllAllowed k)
      → AllAllowed (fail_if (not b) e >> k)
  after_permission true e k h calls p = h refl calls p
  after_permission false e k h calls p = absurd (cc)

  done : (calls : List Call) → All IsAllowed calls → AllAllowed (ok calls)
  done calls h other p = subst (All IsAllowed) (ok_eq p) h

  fileread-AllAllowed : (request : Request) → IsJail fs → AllAllowed (fileread lstat fs request)
  unfolding fileread
  fileread-AllAllowed request jail = after_permission fs.permissions.read permission_denied _ λ may.
      after (resolve_existing lstat fs request.filepath) _ λ path found.
        after (from_disk (lstat path)) _ λ info _.
          after_check info.is_symlink links_unsupported _ λ _.
            after_check info.is_dir cannot_read_directory _ λ _.
              done (open_call path ∷ [])
                ((may, resolve_existing-IsJailed lstat fs _ path jail found), tt)

  filewrite-AllAllowed : (request : Request) → IsJail fs → AllAllowed (filewrite lstat fs request)
  unfolding filewrite
  filewrite-AllAllowed request jail =
      after_permission fs.permissions.write permission_denied _ λ may.
        after_check (request.pflags.creat && not fs.permissions.create) permission_denied _ λ both.
          after (resolve_for_write lstat fs request.filepath) _ λ path found.
            done (open_file_call path (open_flags lstat fs request.pflags) 420 ∷ [])
              ((may, (needs _ _ both, resolve_for_write-IsJailed lstat fs _ path jail found)), tt)

  mkdir-AllAllowed : (request : Request) → IsJail fs → AllAllowed (mkdir lstat fs request)
  unfolding mkdir
  mkdir-AllAllowed request jail = after_permission fs.permissions.create permission_denied _ λ may.
      after (resolve_for_write lstat fs request.filepath) _ λ path found.
        done (mkdir_call path (mkdir_mode lstat fs request) ∷ [])
          ((may, resolve_for_write-IsJailed lstat fs _ path jail found), tt)

  rmdir-AllAllowed : (request : Request) → IsJail fs → AllAllowed (rmdir lstat fs request)
  unfolding rmdir
  rmdir-AllAllowed request jail = after_permission fs.permissions.delete permission_denied _ λ may.
      after (resolve_existing lstat fs request.filepath) _ λ path found.
        after_check (is_root fs path) permission_denied _ λ below.
          after (from_disk (lstat path)) _ λ info _.
            after_check info.is_symlink links_unsupported _ λ _.
              after_check (not info.is_dir) not_a_directory _ λ _. done (remove_call path ∷ []) (
                (
                  may,
                  (
                    resolve_existing-IsJailed lstat fs _ path jail found,
                    root_path-is_root lstat fs jail path below,
                  ),
                ),
                tt,
              )

  remove-AllAllowed : (request : Request) → IsJail fs → AllAllowed (remove lstat fs request)
  unfolding remove
  remove-AllAllowed request jail = after_permission fs.permissions.delete permission_denied _ λ may.
      after (resolve_existing lstat fs request.filepath) _ λ path found.
        after_check (is_root fs path) permission_denied _ λ below.
          after (from_disk (lstat path)) _ λ info _.
            after_check info.is_symlink links_unsupported _ λ _.
              after_check info.is_dir path_is_a_directory _ λ _. done (remove_call path ∷ []) (
                (
                  may,
                  (
                    resolve_existing-IsJailed lstat fs _ path jail found,
                    root_path-is_root lstat fs jail path below,
                  ),
                ),
                tt,
              )

  neither : (a b : Bool) → (a || b) ≡ false → (a ≡ false) × (b ≡ false)
  neither a b h = ground arith

  rename-AllAllowed : (request : Request) → IsJail fs → AllAllowed (rename lstat fs request)
  unfolding rename
  rename-AllAllowed request jail = after_permission fs.permissions.rename permission_denied _ λ may.
      after (resolve_existing lstat fs request.filepath) _ λ source found.
        after (resolve_for_write lstat fs request.target) _ λ target free.
          after_check (is_root fs source || is_root fs target) permission_denied _ λ below.
            after (from_disk (lstat source)) _ λ info _.
              after_check info.is_symlink links_unsupported _ λ _.
                after (reject_existing_link lstat (lstat target)) _ λ _ _.
                  let root = neither (is_root fs source) (is_root fs target) below in
                  done (rename_call source target ∷ []) (
                    (
                      may,
                      (
                        (
                          resolve_existing-IsJailed lstat fs _ source jail found,
                          root_path-is_root lstat fs jail source root.0,
                        ),
                        (
                          resolve_for_write-IsJailed lstat fs _ target jail free,
                          root_path-is_root lstat fs jail target root.1,
                        ),
                      ),
                    ),
                    tt,
                  )

  when-All : (b : Bool) (call : Call) → IsAllowed call → All IsAllowed (when b call)
  when-All true call h = (h, tt)
  when-All false call h = tt

  setstat_calls-All :
      (now : ℕ) (path : Text) (attributes : Attributes) (flags : AttrFlags)
      → fs.permissions.write ≡ true
      → IsJailed lstat fs path
      → All IsAllowed (setstat_calls lstat fs now path attributes flags)
  setstat_calls-All now path attributes flags may h =
      All-append IsAllowed _ _ (when-All flags.size _ (may, h)) (
        All-append IsAllowed _ _ (when-All flags.permissions _ (may, h))
          (when-All flags.acmodtime _ (may, h)))

  finish_setstat :
      (now : ℕ) (path : Text) (info : FileInfo) (flags : AttrFlags) (given : Option Attributes)
      → fs.permissions.write ≡ true
      → IsJailed lstat fs path
      → AllAllowed (elim given [
        | none ↦ ok []
        | some attributes ↦ do
          fail_if (flags.size && info.is_dir) cannot_truncate_directory
          ok (setstat_calls lstat fs now path attributes flags)
      ])
  finish_setstat now path info flags none may h = done [] tt
  finish_setstat now path info flags (some attributes) may h =
      after_check (flags.size && info.is_dir) cannot_truncate_directory _
        λ _. done _ (setstat_calls-All now path attributes flags may h)

  setstat-AllAllowed :
      (now : ℕ) (request : Request) → IsJail fs → AllAllowed (setstat lstat fs now request)
  unfolding setstat
  setstat-AllAllowed now request jail =
      after_permission fs.permissions.write permission_denied _ λ may.
        after (resolve_existing lstat fs request.filepath) _ λ path found.
          after (from_disk (lstat path)) _ λ info _.
            after_check info.is_symlink links_unsupported _ λ _.
              finish_setstat now path info request.attr_flags request.attributes may
                (resolve_existing-IsJailed lstat fs _ path jail found)

  refused : (e : Error) → AllAllowed (err e)
  refused e calls p = absurd (cc)

  either :
      (b : Bool) {yes no : Result Error (List Call)}
      → AllAllowed yes
      → AllAllowed no
      → AllAllowed (if b then yes else no)
  either true h k = h
  either false h k = k

  filecmd-AllAllowed :
      (now : ℕ) (request : Request) → IsJail fs → AllAllowed (filecmd lstat fs now request)
  unfolding filecmd
  filecmd-AllAllowed now request jail = either _ (mkdir-AllAllowed request jail) (
      either _ (rmdir-AllAllowed request jail) (
        either _ (remove-AllAllowed request jail) (
          either _ (rename-AllAllowed request jail)
            (either _ (setstat-AllAllowed now request jail) (either _ (refused _) (refused _))))))

  -- In a jail, every disk call that a command makes is covered by a permission of the session,
  -- and each of its paths lies in the root, with no link on it below the root; what is removed or
  -- renamed, and what it is renamed to, is not the root.
  pub filecmd-IsAllowed :
      (now : ℕ) (request : Request) (calls : List Call)
      → IsJail fs
      → filecmd lstat fs now request ≡ ok calls
      → All IsAllowed calls
  filecmd-IsAllowed now request calls jail = filecmd-AllAllowed now request jail calls

  -- The call by which a file is opened, with what it needs; for writing, it is opened for reading
  -- as well exactly if the request has both flags, and no permission but that for writing counts.
  abbrev pub Opens :
      (request : Request) (calls : List Call)
      → (fileread lstat fs request ≡ ok calls) ⊎ (filewrite lstat fs request ≡ ok calls)
      → Type 0
  Opens request calls (inl h) =
      (path : Text) × (calls ≡ open_call path ∷ [])
      × (fs.permissions.read ≡ true)
      × IsJailed lstat fs path
  Opens request calls (inr h) =
      (path : Text) × (flags : OpenFlags) × (calls ≡ open_file_call path flags 420 ∷ [])
      × (flags.read_too ≡ (request.pflags.read && request.pflags.write))
      × (fs.permissions.write ≡ true)
      × (flags.create ≡ true → fs.permissions.create ≡ true)
      × IsJailed lstat fs path

  -- In a jail, Fileread opens a file only with the permission for reading, and Filewrite only with
  -- that for writing, also where it opens it for reading too, which it does exactly if the request
  -- asks for both, and creating it only with that for creating; the path lies in the root, with no
  -- link on it below the root.
  pub transfer-IsAllowed :
      (request : Request) (calls : List Call)
      → IsJail fs
      → (made : (fileread lstat fs request ≡ ok calls) ⊎ (filewrite lstat fs request ≡ ok calls))
      → Opens request calls made
  unfolding fileread filewrite
  transfer-IsAllowed request calls jail (inl h) =
      elim (Result-cases (resolve_existing lstat fs request.filepath)) [
        | inr (e, missing) ↦ absurd (ground arith)
        | inl (path, found) ↦
            let same : calls ≡ open_call path ∷ [] = ground arith in
            let allowed =
              (subst (All IsAllowed) same (fileread-AllAllowed request jail calls h)).0 in
            (path, same, allowed.0, allowed.1)
      ]
  transfer-IsAllowed request calls jail (inr h) =
      elim (Result-cases (resolve_for_write lstat fs request.filepath)) [
        | inr (e, missing) ↦ absurd (ground arith)
        | inl (path, found) ↦
            let flags = open_flags lstat fs request.pflags in
            let same : calls ≡ open_file_call path flags 420 ∷ [] = ground arith in
            let allowed =
              (subst (All IsAllowed) same (filewrite-AllAllowed request jail calls h)).0 in
            (path, flags, same, refl, allowed.0, allowed.1.0, allowed.1.1)
      ]
