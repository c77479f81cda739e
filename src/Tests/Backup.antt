-- ===== src/Tests/Backup.antt =====
-- Identifiers of backups and paths of archive entries.
use hive_worker.Base.{◌≡◌, refl, [], ◌∷◌, ◌++◌, ok, err, ℕ_discrete, text_eq}
use hive_worker.Go.Text.{trim_prefix, trim_suffix, codes, trim_space}
use hive_worker.Go.Path.{clean, is_outside, is_rooted, components, join_paths}
use hive_worker.Backup.{
  validate_identifier, invalid_identifier, invalid_characters, invalid_file_path,
  clean_archive_path,
}
use hive_worker.Backup.ArchivePath.{IsBelow, clean_archive_path-IsBelow}
use hive_worker.Backup.Identifier.{components-join_identifier}

parent_refused : validate_identifier (codes " .. ") ≡ err invalid_identifier
unfolding validate_identifier trim_space text_eq ℕ_discrete
parent_refused = refl

slash_refused : validate_identifier (codes "a/b") ≡ err invalid_characters
unfolding validate_identifier trim_space text_eq ℕ_discrete
slash_refused = refl

accepted : validate_identifier (codes "cell-1 ") ≡ ok tt
unfolding validate_identifier trim_space text_eq ℕ_discrete
accepted = refl

components-join_identifier_example :
    components (join_paths (codes "/srv/backups") (codes "cell-1 "))
    ≡ components (codes "/srv/backups") ++ (codes "cell-1 " ∷ [])
components-join_identifier_example =
    components-join_identifier (codes "/srv/backups") (codes "cell-1 ")
      (unfold is_rooted ℕ_discrete in refl) accepted

climbing_refused : clean_archive_path (codes "a/../../b") ≡ err invalid_file_path
unfolding clean_archive_path trim_prefix trim_suffix clean is_outside text_eq ℕ_discrete
climbing_refused = refl

entry_cleaned : clean_archive_path (codes "\\world/./x/") ≡ ok (codes "world/x")
unfolding clean_archive_path trim_prefix trim_suffix clean is_outside text_eq ℕ_discrete
entry_cleaned = refl

-- Only one leading slash is taken away.
double_slash : clean_archive_path (codes "//a") ≡ ok (codes "/a")
unfolding clean_archive_path trim_prefix trim_suffix clean is_outside text_eq ℕ_discrete
double_slash = refl

clean_archive_path-IsBelow_example : IsBelow (codes "/srv/a") (codes "/a")
clean_archive_path-IsBelow_example =
    clean_archive_path-IsBelow (codes "/srv/a") (codes "//a") (codes "/a")
      (unfold is_rooted ℕ_discrete in refl) double_slash
