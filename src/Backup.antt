-- ===== src/Backup.antt =====
-- internal/backup/manager.go: the identifiers that name the files of backups, and
-- the paths of the entries of their archives.
pub mod Identifier
pub mod ArchivePath
pub mod Mount
use hive_worker.Base.{
  map, contains, ℕ, ◌+◌, Text, Bool, true, false, not, ◌&&◌, ◌||◌, [], ◌∷◌, ◌==◌, nat_eq, text_eq,
  leb, ltb, Result, ok, err, ◌>>=◌, ◌>>◌, fail_if, if◌then◌else◌,
}
use hive_worker.Go.Path.{slash, dot, clean, is_outside}
use hive_worker.Go.Text.{trim_prefix, trim_suffix, codes, is_empty, trim_space}

pub data Error : Type 0 where
  identifier_required : Error
  identifier_too_long : Error
  invalid_identifier : Error
  invalid_characters : Error
  invalid_file_path : Error
  backup_path_required : Error

-- The bytes of a text in UTF-8, which `len` counts.
abbrev pub utf8_width : ℕ → ℕ
utf8_width c = if ltb c 0x80 then 1 else if ltb c 0x800 then 2 else if ltb c 0x10000 then 3 else 4

abbrev pub byte_length : Text → ℕ
byte_length [] = 0
byte_length (c ∷ s) = utf8_width c + byte_length s

abbrev pub valid_character : ℕ → Bool
valid_character c =
    (leb 97 c && leb c 122)
    || (leb 65 c && leb c 90)
    || (leb 48 c && leb c 57)
    || c == 45
    || c == 95

-- The loop over the characters.
abbrev pub all_valid : Text → Bool
all_valid [] = true
all_valid (c ∷ s) = valid_character c && all_valid s

unfoldable pub validate_identifier : Text → Result Error (Unit {0})
validate_identifier value =
    let trimmed = trim_space value in
    if is_empty trimmed
    then err identifier_required
    else if ltb 128 (byte_length trimmed)
    then err identifier_too_long
    else if trimmed == codes "." || trimmed == codes ".."
    then err invalid_identifier
    else if not (all_valid trimmed)
    then err invalid_characters
    else ok tt

abbrev pub with_slashes : Text → Text
with_slashes = map (λ c. if c == 92 then slash else c)

unfoldable pub clean_archive_path : Text → Result Error Text
clean_archive_path path =
    let relative = trim_prefix (with_slashes path) (codes "/") in
    let cleaned = clean (trim_suffix relative (codes "/")) in
    if cleaned == dot || is_empty cleaned || is_outside cleaned || contains 0 cleaned
    then err invalid_file_path
    else ok cleaned

unfoldable pub clean_requested_archive_path : Text → Result Error Text
clean_requested_archive_path path =
    let trimmed = trim_space path in
    if is_empty trimmed then err backup_path_required else clean_archive_path trimmed
