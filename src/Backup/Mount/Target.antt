-- ===== src/Backup/Mount/Target.antt =====
-- internal/backup/mount_service.go: where a restoration reads and writes.
use hive_worker.Base.{
  ℕ, Text, ◌≡◌, sym, ap, ◌∙◌, Bool, true, not, List, [], ◌∷◌, ◌++◌, All, ◌==◌, text_eq, ok, err,
  Result-cases, inl, inr, arith, if◌then◌else◌, contains, nat_eq,
}
use hive_worker.Go.Text.{is_empty, split, trim_space}
use hive_worker.Go.Text.Split.{Lacks, split-parts}
use hive_worker.Go.Path.{slash, dot, is_rooted, walk, components, join_paths, abs}
use hive_worker.Go.Path.Components.{
  IsName, components-join, components_rooted, walk-names, unwind-append,
}
use hive_worker.Go.Path.Abs.{abs_rooted, abs-join}
use hive_worker.Backup.Mount.{Error, MountService, Stat, mount_path}
use hive_worker.Backup.Mount.Restore.{
  valid_elements, valid_path, clean_restore_path, secure_restore_join, restore_paths,
}

valid_elements-IsName :
    (parts : List Text) → All (Lacks slash) parts → valid_elements parts ≡ true → All IsName parts
valid_elements-IsName [] lacks h = tt
valid_elements-IsName (part ∷ rest) lacks h =
    ((ground arith, lacks.0), valid_elements-IsName rest lacks.1 (ground arith))

valid :
    (value path : Text)
    → (if is_empty value
        then err Error.unsafe_archive_path
        else if contains 0 value
        then err Error.unsafe_archive_path
        else if not (valid_path value)
        then err Error.unsafe_archive_path
        else if value == dot
        then err Error.unsafe_archive_path
        else ok value)
      ≡ ok path
    → (value ≡ path) × (valid_elements (split slash value) ≡ true)
valid value path h = (ground arith, ground arith)

clean_restore_path-IsName :
    (text path : Text) → clean_restore_path text ≡ ok path → All IsName (split slash path)
unfolding clean_restore_path
clean_restore_path-IsName text path h =
    let (same, elements) = valid _ path h in
    valid_elements-IsName (split slash path) (split-parts slash path)
      (ap (λ v. valid_elements (split slash v)) (sym same) ∙ elements)

components-join_elements :
    (a path : Text)
    → is_rooted a ≡ true
    → All IsName (split slash path)
    → components (join_paths a path) ≡ components a ++ split slash path
components-join_elements a path h names =
    let stack = walk true [] (split slash a) in
    components-join a path h
    ∙ (walk-names stack (split slash path) names
        ∙ (unwind-append stack (split slash path)
            ∙ ap (λ l. l ++ split slash path) (sym (components_rooted a h))))

joined :
    (outside : Bool) (target path : Text)
    → (if outside then err Error.unsafe_archive_path else ok target) ≡ ok path
    → path ≡ target
joined outside target path h = ground arith

module _ (working_directory : Text) (rooted : is_rooted working_directory ≡ true) where
  components-secure_restore_join :
      (root path target : Text)
      → All IsName (split slash path)
      → secure_restore_join working_directory root path ≡ ok target
      → components target ≡ components (abs working_directory root) ++ split slash path
  unfolding secure_restore_join
  components-secure_restore_join root path target names h =
      let base = abs_rooted working_directory root rooted in
      ap components (joined _ _ target h)
      ∙ (ap components (abs-join working_directory (abs working_directory root) path base)
          ∙ components-join_elements (abs working_directory root) path base names)

  -- For a restoration that is not refused, from an absolute working directory, the source has the
  -- components of the directory of the mount and the target those of the directory of the cell,
  -- followed by the same names in both, none of which is `..`.
  pub restore_paths-IsBelow :
      (fuel : ℕ) (target_root : Text) (stat : Text → Stat) (cell_id mount_id path : Text)
      → (s : MountService) (source target : Text)
      → restore_paths fuel working_directory target_root stat cell_id mount_id path s
        ≡ ok (source, target)
      → (mount_root : Text) × (names : List Text) × (All IsName names
          × ((mount_path stat (trim_space cell_id) (trim_space mount_id) s ≡ ok mount_root)
              × ((components source ≡ components (abs working_directory mount_root) ++ names)
                  × (components target ≡ components (abs working_directory target_root) ++ names))))
  unfolding restore_paths
  restore_paths-IsBelow fuel target_root stat cell_id mount_id path s source target h =
      elim (Result-cases (clean_restore_path path)) [
        | inr (e, bad) ↦ absurd (ground arith)
        | inl (v, cleaned) ↦
            elim (Result-cases (mount_path stat (trim_space cell_id) (trim_space mount_id) s)) [
              | inr (e, bad) ↦ absurd (ground arith)
              | inl (root, mounted) ↦
                  elim (Result-cases (secure_restore_join working_directory root v)) [
                    | inr (e, bad) ↦ absurd (ground arith)
                    | inl (a, from) ↦
                        elim (Result-cases (secure_restore_join working_directory target_root v)) [
                          | inr (e, bad) ↦ absurd (ground arith)
                          | inl (b, to) ↦
                              let same_source : source ≡ a = ground arith in
                              let same_target : target ≡ b = ground arith in
                              let names = clean_restore_path-IsName path v cleaned in
                              (
                                root,
                                split slash v,
                                (
                                  names,
                                  (
                                    mounted,
                                    (
                                      ap components same_source
                                          ∙ components-secure_restore_join root v a names from,
                                      ap components same_target
                                          ∙ components-secure_restore_join target_root v b names to,
                                    ),
                                  ),
                                ),
                              )
                        ]
                  ]
            ]
      ]
