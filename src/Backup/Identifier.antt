-- ===== src/Backup/Identifier.antt =====
-- An identifier that is accepted names one entry of a directory.
use hive_worker.Base.{
  ℕ, ◌≤◌, Text, ◌≡◌, ◌≢◌, ◌↔◌, refl, sym, ap, ◌∙◌, Bool, true, false, ◌||◌, [], ◌∷◌, ◌++◌, ◌==◌,
  nat_eq, text_eq, contains, ok, arith, ℕ_discrete,
}
use hive_worker.Go.Text.{is_empty, is_space, trim_left, trim_right, trim_space, join}
use hive_worker.Go.Path.{slash, dot, dot_dot, is_rooted, components, join_paths}
use hive_worker.Go.Path.Components.{IsName, is_name, components-join_names}
use hive_worker.Backup.{byte_length, all_valid, validate_identifier}

module _ (p : ℕ → Bool) (c : ℕ) (kept : p c ≡ false) where
  contains-trim_left : (s : Text) → contains c (trim_left p s) ≡ contains c s
  unfolding trim_left
  contains-trim_left [] = refl
  contains-trim_left (d ∷ s) = ground (arith, contains-trim_left s, kept)

  contains-trim_right : (s : Text) → contains c (trim_right p s) ≡ contains c s
  unfolding trim_right
  contains-trim_right [] = refl
  contains-trim_right (d ∷ s) = ground (arith, contains-trim_right s, kept)

all_valid-slash : (s : Text) → all_valid s ≡ true → contains slash s ≡ false
all_valid-slash [] h = refl
all_valid-slash (c ∷ s) h = ground (arith, all_valid-slash s)

valid-not_dots : (s : Text) → all_valid s ≡ true → (s == dot || s == dot_dot) ≡ false
valid-not_dots [] h = ground arith
valid-not_dots (c ∷ s) h = ground arith

-- Exactly the texts that are, without spaces around them, letters, digits, dashes and underscores,
-- from one to 128 of them, are accepted as identifiers.
pub validate_identifier_iff :
    (value : Text)
    → (validate_identifier value ≡ ok tt) ↔ (
        (is_empty (trim_space value) ≡ false)
        × ((byte_length (trim_space value) ≤ 128) × (all_valid (trim_space value) ≡ true)))
unfolding validate_identifier
validate_identifier_iff value = (
  λ h. (ground arith, (ground arith, ground arith)),
  λ h. ground (arith, valid-not_dots (trim_space value)),
)

contains-trim_space : (s : Text) → contains slash (trim_space s) ≡ contains slash s
unfolding trim_space is_space ℕ_discrete
contains-trim_space s =
    contains-trim_right is_space slash refl (trim_left is_space s)
    ∙ contains-trim_left is_space slash refl s

-- A text that trimming leaves alone is no other text's.
not_untrimmed :
    {value fixed : Text} → trim_space fixed ≡ fixed → trim_space value ≢ fixed → value ≢ fixed
not_untrimmed kept h p = h (ap trim_space p ∙ kept)

trim-dot : trim_space dot ≡ dot
unfolding trim_space ℕ_discrete
trim-dot = refl

trim-dot_dot : trim_space dot_dot ≡ dot_dot
unfolding trim_space ℕ_discrete
trim-dot_dot = refl

trim-nil : trim_space [] ≡ []
unfolding trim_space
trim-nil = refl

named : (value : Text) → value ≢ [] → value ≢ dot → value ≢ dot_dot → is_name value ≡ true
named [] h k l = absurd (h refl)
named (c ∷ value) h k l = ground arith

name-of_trimmed :
    (value : Text)
    → is_empty (trim_space value) ≡ false
    → (trim_space value == dot || trim_space value == dot_dot) ≡ false
    → is_name value ≡ true
name-of_trimmed value h k =
    named value (not_untrimmed trim-nil (λ p. absurd (ground arith)))
      (not_untrimmed trim-dot (λ p. absurd (ground arith)))
      (not_untrimmed trim-dot_dot (λ p. absurd (ground arith)))

validate_identifier-IsName : (value : Text) → validate_identifier value ≡ ok tt → IsName value
validate_identifier-IsName value h =
    let (full, (short, valid)) = (validate_identifier_iff value).0 h in
    (
      name-of_trimmed value full (valid-not_dots (trim_space value) valid),
      sym (contains-trim_space value) ∙ all_valid-slash (trim_space value) valid,
    )

-- An accepted identifier, joined to an absolute directory with the spaces that it may have around
-- it, is one component below that directory.
pub components-join_identifier :
    (directory value : Text)
    → is_rooted directory ≡ true
    → validate_identifier value ≡ ok tt
    → components (join_paths directory value) ≡ components directory ++ (value ∷ [])
unfolding join
components-join_identifier directory value h valid =
    components-join_names directory (value ∷ []) h (validate_identifier-IsName value valid, tt)
