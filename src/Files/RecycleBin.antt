-- ===== src/Files/RecycleBin.antt =====
-- internal/files/manager.go: the recycle bin of a directory.
-- `stat` is what `os.Stat` answers, and `stamp` the time as the source prints it.
pub mod Unique
use hive_worker.Base.{
  ℕ, zero, suc, ◌+◌, Text, Bool, true, false, not, ◌&&◌, ◌||◌, Option, none, some, List, [], ◌∷◌,
  ◌++◌, ◌==◌, text_eq, if◌then◌else◌, Result, ok, err, ◌>>=◌, ◌>>◌, fail_if,
}
use hive_worker.Go.Text.{codes, is_empty, has_prefix, trim_prefix, trim_suffix}
use hive_worker.Go.Text.Search.{contains_text}
use hive_worker.Go.Decimal.{format_uint}
use hive_worker.Go.Path.{clean, dir, dot, dot_dot, join_paths}
use hive_worker.Go.Path.Names.{base_name, ext}
use hive_worker.Files.{Error, safe_path, refused, invalid_path, disk_failure}
use hive_worker.Files.Operations.{
  Call, Stat, missing, remove_all, move, ensure_parent_dir, a_directory, a_file, unknown,
}

abbrev pub recycle_bin_name : Text
recycle_bin_name = codes ".recycle_bin"

unfoldable pub safe_relative_path : Text → Result Error Text
safe_relative_path path =
    let cleaned = clean path in
    let trimmed = trim_prefix cleaned (codes "/") in
    if cleaned == dot
    then err (refused (codes "path is required"))
    else if is_empty trimmed || trimmed == dot
    then err (refused (codes "path is required"))
    else if has_prefix trimmed (codes "../")
        || trimmed == dot_dot
        || contains_text trimmed (codes "/../")
    then err invalid_path
    else ok trimmed

-- Whether a path is below the recycle bin.
abbrev pub in_bin : Text → Bool
in_bin path = has_prefix path (recycle_bin_name ++ codes "/")

abbrev pub is_missing : Stat → Bool
is_missing missing = true
is_missing a_directory = false
is_missing a_file = false
is_missing unknown = false

module _ (stamp : Text) where
  -- The name of a deleted file, without its extension.
  abbrev pub stamped : Text → Text
  stamped path =
      trim_suffix (base_name path) (ext path) ++ (codes " (deleted " ++ (stamp ++ codes ")"))

  abbrev pub numbered : Text → ℕ → Text
  numbered path index =
      join_paths (dir path) (stamped path ++ (codes " " ++ (format_uint index ++ ext path)))

module _ (stat : Text → Stat) (stamp : Text) where
  -- The loop over the numbers; `none` means that the fuel ran out.
  unfoldable pub first_missing : ℕ → Text → ℕ → Option Text
  first_missing zero path index = none
  first_missing (suc fuel) path index =
      let later = first_missing fuel path (index + 1) in
      if is_missing (stat (numbered stamp path index))
      then some (numbered stamp path index)
      else later

  unfoldable pub unique_recycle_path : ℕ → Text → Option Text
  unfolding first_missing
  unique_recycle_path fuel path =
      let candidate = join_paths (dir path) (stamped stamp path ++ ext path) in
      if is_missing (stat path)
      then some path
      else if is_missing (stat candidate)
      then some candidate
      else first_missing fuel path 2

  abbrev moved : Text → Option Text → List Call
  moved source none = []
  moved source (some target) = ensure_parent_dir target ∷ move source target ∷ []

  abbrev found : Stat → Result Error (Unit {0})
  found a_directory = ok tt
  found a_file = ok tt
  found missing = err disk_failure
  found unknown = err disk_failure

  module _ (fuel : ℕ) (working_directory root : Text) where
    unfoldable pub move_to_recycle_bin : Text → Result Error (List Call)
    move_to_recycle_bin path = do
      clean_path ← safe_relative_path path
      fail_if (clean_path == recycle_bin_name || in_bin clean_path)
          (refused (codes "cannot move recycle bin contents to recycle bin"))
      source ← safe_path working_directory root clean_path
      found (stat source)
      target ← safe_path working_directory root (join_paths recycle_bin_name clean_path)
      ok (moved source (unique_recycle_path fuel target))

    unfoldable pub restore_from_recycle_bin : Text → Result Error (List Call)
    restore_from_recycle_bin path = do
      clean_path ← safe_relative_path path
      fail_if (not (clean_path == recycle_bin_name) && not (in_bin clean_path))
          (refused (codes "path is not inside recycle bin"))
      fail_if (clean_path == recycle_bin_name) (refused (codes "cannot restore recycle bin itself"))
      source ← safe_path working_directory root clean_path
      target ←
          safe_path working_directory root (trim_prefix clean_path (recycle_bin_name ++ codes "/"))
      ok (moved source (unique_recycle_path fuel target))

unfoldable pub permanent_delete_from_recycle_bin : Text → Text → Text → Result Error (List Call)
permanent_delete_from_recycle_bin working_directory root path = do
  clean_path ← safe_relative_path path
  fail_if (not (clean_path == recycle_bin_name) && not (in_bin clean_path))
      (refused (codes "permanent delete is only allowed inside recycle bin"))
  fail_if (clean_path == recycle_bin_name)
      (refused (codes "cannot permanently delete recycle bin itself"))
  target ← safe_path working_directory root clean_path
  ok (remove_all target ∷ [])
