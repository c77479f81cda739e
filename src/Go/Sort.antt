-- ===== src/Go/Sort.antt =====
-- `sort.SliceStable`, as an insertion sort, and the order of texts.
use mathlib.Core.List.{Perm}
use mathlib.Core.List.Perm
use hive_worker.Base.{
  suc, ◌≡◌, refl, Text, Bool, true, false, List, [], ◌∷◌, length, ltb, ◌==◌, nat_eq, if◌then◌else◌,
  arith, ap, sym, ◌∙◌, Bool-cases, inl, inr,
}

-- `<` of strings; UTF-8 keeps the order of code points.
unfoldable pub text_less : Text → Text → Bool
text_less s [] = false
text_less [] (d ∷ t) = true
text_less (c ∷ s) (d ∷ t) =
    let rest = text_less s t in if ltb c d then true else if c == d then rest else false

module _ {ℓ} {A : Type ℓ} (less : A → A → Bool) where
  insert_sorted : A → List A → List A
  insert_sorted x [] = x ∷ []
  insert_sorted x (y ∷ ys) =
      let later = y ∷ insert_sorted x ys in if less y x then later else x ∷ y ∷ ys

  -- Equal elements keep their order: the last element is put in first.
  unfoldable pub slice_stable : List A → List A
  unfolding insert_sorted
  slice_stable [] = []
  slice_stable (x ∷ xs) = insert_sorted x (slice_stable xs)

  length-insert_sorted : (x : A) (ys : List A) → length (insert_sorted x ys) ≡ suc (length ys)
  unfolding insert_sorted
  length-insert_sorted x [] = refl
  length-insert_sorted x (y ∷ ys) = ground (arith, length-insert_sorted x ys)

  pub length-slice_stable : (xs : List A) → length (slice_stable xs) ≡ length xs
  unfolding slice_stable
  length-slice_stable [] = refl
  length-slice_stable (x ∷ xs) =
      omega (arith, length-insert_sorted x (slice_stable xs), length-slice_stable xs)

  Perm-insert_sorted : (x : A) (ys : List A) → Perm (insert_sorted x ys) (x ∷ ys)
  unfolding insert_sorted
  Perm-insert_sorted x [] = Perm.rfl
  Perm-insert_sorted x (y ∷ ys) = elim (Bool-cases (less y x)) [
    | inl after ↦ rw after (Perm.trans (Perm.cons y (Perm-insert_sorted x ys)) (Perm.swap x y ys))
    | inr before ↦ rw before Perm.rfl
  ]

  pub Perm-slice_stable : (xs : List A) → Perm (slice_stable xs) xs
  unfolding slice_stable
  Perm-slice_stable [] = Perm.rfl
  Perm-slice_stable (x ∷ xs) =
      Perm.trans (Perm-insert_sorted x (slice_stable xs)) (Perm.cons x (Perm-slice_stable xs))

  -- No element comes after one that it should come before.
  abbrev pub IsOrdered : List A → Type 0
  IsOrdered [] = Unit
  IsOrdered (x ∷ []) = Unit
  IsOrdered (x ∷ y ∷ rest) = (less y x ≡ false) × IsOrdered (y ∷ rest)

  module _ (asymmetric : (x y : A) → less x y ≡ true → less y x ≡ false) where
    insert_after :
        (x y : A) (ys : List A)
        → less y x ≡ true
        → IsOrdered (y ∷ ys)
        → IsOrdered (insert_sorted x ys)
        → IsOrdered (y ∷ insert_sorted x ys)
    unfolding insert_sorted
    insert_after x y [] h sorted later = (asymmetric y x h, tt)
    insert_after x y (z ∷ zs) h sorted later = elim (Bool-cases (less z x)) [
      | inl after ↦ rw after (sorted.0, rw after at later)
      | inr before ↦ rw before (asymmetric y x h, (before, sorted.1))
    ]

    rest-IsOrdered : (y : A) (ys : List A) → IsOrdered (y ∷ ys) → IsOrdered ys
    rest-IsOrdered y [] sorted = tt
    rest-IsOrdered y (z ∷ zs) sorted = sorted.1

    insert_sorted-IsOrdered : (x : A) (ys : List A) → IsOrdered ys → IsOrdered (insert_sorted x ys)
    unfolding insert_sorted
    insert_sorted-IsOrdered x [] sorted = tt
    insert_sorted-IsOrdered x (y ∷ ys) sorted = elim (Bool-cases (less y x)) [
      | inl after ↦ rw after (
          insert_after x y ys after sorted
            (insert_sorted-IsOrdered x ys (rest-IsOrdered y ys sorted)))
      | inr before ↦ rw before (before, sorted)
    ]

    pub slice_stable-IsOrdered : (xs : List A) → IsOrdered (slice_stable xs)
    unfolding slice_stable
    slice_stable-IsOrdered [] = tt
    slice_stable-IsOrdered (x ∷ xs) =
        insert_sorted-IsOrdered x (slice_stable xs) (slice_stable-IsOrdered xs)

text_less_refl : (s : Text) → text_less s s ≡ false
unfolding text_less
text_less_refl [] = refl
text_less_refl (c ∷ s) = ground (arith, text_less_refl s)

pub text_less_same : (s t : Text) → s ≡ t → text_less s t ≡ false
text_less_same s t e = ap (λ u. text_less s u) (sym e) ∙ text_less_refl s

pub text_less_asym : (s t : Text) → text_less s t ≡ true → text_less t s ≡ false
unfolding text_less
text_less_asym s [] h = absurd (cc)
text_less_asym [] (d ∷ t) h = refl
text_less_asym (c ∷ s) (d ∷ t) h = ground (arith, text_less_asym s t)
