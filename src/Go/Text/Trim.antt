-- ===== src/Go/Text/Trim.antt =====
-- Trimming is idempotent, and what is trimmed has no space at either end.
use hive_worker.Base.{ℕ, Text, ◌≡◌, refl, ap, ◌∙◌, Bool, false, [], ◌∷◌, arith}
use hive_worker.Go.Text.{is_space, codes, trim_left, trim_right, trim_space}

-- The text does not begin with a character that satisfies the test.
abbrev pub TrimmedLeft : (ℕ → Bool) → Text → Type 0
TrimmedLeft p [] = Unit
TrimmedLeft p (c ∷ s) = p c ≡ false

module _ (p : ℕ → Bool) where
  trim_left-TrimmedLeft : (s : Text) → TrimmedLeft p (trim_left p s)
  unfolding trim_left
  trim_left-TrimmedLeft [] = tt
  trim_left-TrimmedLeft (c ∷ s) = ground (arith, trim_left-TrimmedLeft s)

  trim_left_fixed : (s : Text) → TrimmedLeft p s → trim_left p s ≡ s
  unfolding trim_left
  trim_left_fixed [] h = refl
  trim_left_fixed (c ∷ s) h = ground arith

  trim_right-TrimmedLeft : (s : Text) → TrimmedLeft p s → TrimmedLeft p (trim_right p s)
  unfolding trim_right
  trim_right-TrimmedLeft [] h = tt
  trim_right-TrimmedLeft (c ∷ s) h = ground arith

  trim_right_idem : (s : Text) → trim_right p (trim_right p s) ≡ trim_right p s
  unfolding trim_right
  trim_right_idem [] = refl
  trim_right_idem (c ∷ s) = ground (arith, trim_right_idem s)

-- A trimmed text is a fixed point of `TrimSpace`.
pub trim_space_idem : (s : Text) → trim_space (trim_space s) ≡ trim_space s
unfolding trim_space
trim_space_idem s =
    ap (trim_right is_space) (
      trim_left_fixed is_space _
        (trim_right-TrimmedLeft is_space _ (trim_left-TrimmedLeft is_space s)))
    ∙ trim_right_idem is_space (trim_left is_space s)

trim_spaces : trim_space (codes "\t 10.0.0.1 \n") ≡ codes "10.0.0.1"
unfolding trim_space
trim_spaces = refl
