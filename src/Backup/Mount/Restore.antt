-- ===== src/Backup/Mount/Restore.antt =====
-- internal/backup/mount_service.go: a part of a mounted backup is copied back into the cell.
-- The mounted files are a tree; `lstat` is what the disk says of a path of the cell.
use hive_worker.Base.{
  ℕ, zero, suc, Text, Bool, true, false, not, ◌&&◌, ◌||◌, Option, none, some, List, [], ◌∷◌, ◌++◌,
  ◌==◌, text_eq, nat_eq, contains, if◌then◌else◌, Result, ok, err, ◌>>=◌, ◌>>◌, fail_if,
}
use hive_worker.Go.Text.{codes, is_empty, trim_space, trim_left, trim_right, split}
use hive_worker.Go.Path.{components, dir, dot, dot_dot, slash, is_outside, join_paths, abs, rel}
use hive_worker.Backup.{with_slashes}
use hive_worker.Backup.Mount.{
  Error, unsafe_archive_path, unsupported_entry, disk_failure, required, invalid_mount_id, Stat,
  a_directory, a_file, a_link, a_device, missing, unknown, MountService, mount_path,
}

-- A call of the disk; `copy_file` writes a temporary file beside the target and renames it.
pub data Call : Type 0 where
  mkdir_all : Text → Call
  remove : Text → Call
  remove_all : Text → Call
  copy_file : Text → Text → Call

mutual
  -- What is mounted at a path.
  pub data Source : Type 0 where
    tree : Children → Source
    regular : Source
    special : Source

  pub data Children : Type 0 where
    no_child : Children
    child : Text → Source → Children → Children

-- The elements of a path that `fs.ValidPath` accepts.
abbrev pub valid_elements : List Text → Bool
valid_elements [] = true
valid_elements (part ∷ rest) =
    not (is_empty part) && not (part == dot) && not (part == dot_dot) && valid_elements rest

abbrev pub valid_path : Text → Bool
valid_path value = value == dot || valid_elements (split slash value)

abbrev is_slash : ℕ → Bool
is_slash c = c == slash

unfoldable pub clean_restore_path : Text → Result Error Text
clean_restore_path text =
    let value = trim_right is_slash (trim_left is_slash (with_slashes (trim_space text))) in
    if is_empty value
    then err unsafe_archive_path
    else if contains 0 value
    then err unsafe_archive_path
    else if not (valid_path value)
    then err unsafe_archive_path
    else if value == dot
    then err unsafe_archive_path
    else ok value

unfoldable pub secure_restore_join : Text → Text → Text → Result Error Text
secure_restore_join working_directory root relative_path =
    let abs_root = abs working_directory root in
    let target = abs working_directory (join_paths abs_root relative_path) in
    if is_outside (rel abs_root target) then err unsafe_archive_path else ok target

-- The disk of the cell, and the calls that were made.
pub record State : Type 0 where
  pub disk : Text → Stat
  pub calls : List Call

-- Whether a path leads to another one or above it.
abbrev pub leads_to : List Text → List Text → Bool
leads_to [] parts = true
leads_to (a ∷ above) [] = false
leads_to (a ∷ above) (b ∷ parts) = a == b && leads_to above parts

abbrev pub or_directory : Stat → Stat
or_directory missing = a_directory
or_directory a_directory = a_directory
or_directory a_file = a_file
or_directory a_link = a_link
or_directory a_device = a_device
or_directory unknown = unknown

-- A step of the restoration; `none` means that the fuel ran out.
abbrev pub Step : Type 0
Step = State → Option (State × Result Error (Unit {0}))

infixr 5 ◌then_do◌
abbrev pub ◌then_do◌ : Step → Step → Step
(first then_do next) s = elim (first s) [
  | none ↦ none
  | some (s', err e) ↦ some (s', err e)
  | some (s', ok _) ↦ next s'
]

abbrev pub failing : Error → Step
failing e s = some (s, err e)

abbrev pub done : Step
done s = some (s, ok tt)

-- `MkdirAll` makes the directories that are missing on the way, too.
abbrev pub make_directories : Text → Step
make_directories path s = some (
  record {
    disk = λ p.
        if leads_to (components p) (components path) then or_directory (s.disk p) else s.disk p;
    calls = s.calls ++ (mkdir_all path ∷ []);
  },
  ok tt,
)

-- `Remove` and `RemoveAll`; a file has nothing below it.
abbrev pub clear : Call → Text → Step
clear call path s = some (
  record {
    disk = λ p. if leads_to (components path) (components p) then missing else s.disk p;
    calls = s.calls ++ (call ∷ []);
  },
  ok tt,
)

abbrev pub copy : Text → Text → Step
copy source target s = some (
  record {
    disk = λ p. if p == target then a_file else s.disk p;
    calls = s.calls ++ (copy_file source target ∷ []);
  },
  ok tt,
)

abbrev pub is_plain : Stat → Result Error (Unit {0})
is_plain a_link = err unsupported_entry
is_plain missing = err disk_failure
is_plain unknown = err disk_failure
is_plain a_directory = ok tt
is_plain a_file = ok tt
is_plain a_device = ok tt

-- The loop of `ensureSafeRestoreParent`; `none` means that the fuel ran out.
unfoldable pub check_parents : ℕ → Text → (Text → Stat) → Text → Option (Result Error (Unit {0}))
check_parents zero root disk current = none
check_parents (suc fuel) root disk current =
    let later = check_parents fuel root disk (dir current) in
    elim (is_plain (disk current)) [
      | err e ↦ some (err e)
      | ok _ ↦
          if current == root
          then some (ok tt)
          else if dir current == current
          then some (err unsafe_archive_path)
          else later
    ]

module _ (fuel : ℕ) (working_directory target_root : Text) where
  abbrev checked_parents : Text → Step
  checked_parents parent s =
      elim (check_parents fuel (abs working_directory target_root) s.disk parent) [
        | none ↦ none
        | some result ↦ some (s, result)
      ]

  -- The directories above the target are made before they are looked at.
  unfoldable pub ensure_safe_restore_parent : Text → Step
  ensure_safe_restore_parent target =
      make_directories (dir target) then_do checked_parents (dir target)

  abbrev replace_file : Text → Text → Stat → Step
  replace_file source target a_link = failing unsupported_entry
  replace_file source target unknown = failing disk_failure
  replace_file source target a_directory =
      clear (remove_all target) target then_do copy source target
  replace_file source target a_file = copy source target
  replace_file source target a_device = copy source target
  replace_file source target missing = copy source target

  unfoldable pub restore_mounted_file : Text → Text → Step
  unfolding ensure_safe_restore_parent
  restore_mounted_file source target =
      ensure_safe_restore_parent target then_do λ s. replace_file source target (s.disk target) s

  abbrev make_directory : Text → Stat → Step
  make_directory target a_link = failing unsupported_entry
  make_directory target unknown = failing disk_failure
  make_directory target a_directory = make_directories target
  make_directory target missing = make_directories target
  make_directory target a_file = clear (remove target) target then_do make_directories target
  make_directory target a_device = clear (remove target) target then_do make_directories target

  -- `restoreMountedDirectory`, and the choice that it and `RestorePath` make for each entry.
  unfoldable mutual
    unfolding ensure_safe_restore_parent restore_mounted_file

    pub restore : Source → Text → Text → Step
    restore (tree children) source target =
        ensure_safe_restore_parent target
        then_do (λ s. make_directory target (s.disk target) s)
        then_do restore_children children source target
    restore regular source target = restore_mounted_file source target
    restore special source target = failing unsupported_entry

    pub restore_children : Children → Text → Text → Step
    restore_children no_child source target = done
    restore_children (child name source_child rest) source target =
        restore source_child (join_paths source name) (join_paths target name)
        then_do restore_children rest source target

  -- The paths of a restoration: below the mount, and in the cell.
  unfoldable pub restore_paths :
      (Text → Stat) → Text → Text → Text → MountService → Result Error (Text × Text)
  restore_paths stat cell_text mount_text path s = do
    let cell_id = trim_space cell_text
    let mount_id = trim_space mount_text
    fail_if (is_empty cell_id) (required (codes "cell id"))
    fail_if (is_empty mount_id) invalid_mount_id
    relative_path ← clean_restore_path path
    mount_root ← mount_path stat cell_id mount_id s
    fail_if (is_empty target_root) (required (codes "target cell directory"))
    source ← secure_restore_join working_directory mount_root relative_path
    target ← secure_restore_join working_directory target_root relative_path
    ok (source, target)

  abbrev restore_at : Option Source → Text → Text → Step
  restore_at none source target = failing disk_failure
  restore_at (some found) source target = restore found source target

  -- `mounted` is what is at a path below the mounts.
  restore_trimmed :
      (Text → Stat) → (Text → Option Source) → Text → Text → Text → MountService → Step
  restore_trimmed stat mounted cell_id mount_id path s =
      elim (restore_paths stat cell_id mount_id path s) [
        | err e ↦ failing e
        | ok (source, target) ↦ restore_at (mounted source) source target
      ]

unfoldable pub restore_path :
    ℕ
    → Text
    → (Text → Stat)
    → (Text → Option Source)
    → Text
    → Text
    → Text
    → Text
    → MountService
    → Step
unfolding restore_trimmed
restore_path fuel working_directory stat mounted cell_id mount_id path target_root =
    restore_trimmed fuel working_directory (trim_space target_root) stat mounted cell_id mount_id
      path
