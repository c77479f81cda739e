-- ===== src/Base/Lists.antt =====
-- Lists measured by native numbers, predicates on every element, and membership as a test.
use Prim.Native.Nat.{ℕ, zero, suc, ◌+◌, ◌-◌, ◌≤◌, min}
use mathlib.Core.Path.{◌≡◌, refl, ap}
use mathlib.Core.Bool.{Bool, true, false, ◌||◌}
use mathlib.Core.List.{List, [], ◌∷◌, ◌++◌}
use native.Mathlib.Omega.{arith}
use hive_worker.Base.Tests.{Eq, ◌==◌, if◌then◌else◌}

module _ {ℓ} {A : Type ℓ} where
  abbrev pub length : List A → ℕ
  length [] = 0
  length (x ∷ xs) = suc (length xs)

  abbrev pub take : ℕ → List A → List A
  take zero xs = []
  take (suc n) [] = []
  take (suc n) (x ∷ xs) = x ∷ take n xs

  abbrev pub drop : ℕ → List A → List A
  drop zero xs = xs
  drop (suc n) [] = []
  drop (suc n) (x ∷ xs) = drop n xs

  pub length-append : (xs ys : List A) → length (xs ++ ys) ≡ length xs + length ys
  length-append [] ys = omega arith
  length-append (x ∷ xs) ys = omega (arith, length-append xs ys)

  pub length-take : (n : ℕ) (xs : List A) → length (take n xs) ≡ min n (length xs)
  length-take zero xs = omega arith
  length-take (suc n) [] = omega arith
  length-take (suc n) (x ∷ xs) = omega (arith, length-take n xs)

  pub length-drop : (n : ℕ) (xs : List A) → length (drop n xs) ≡ length xs - n
  length-drop zero xs = omega arith
  length-drop (suc n) [] = omega arith
  length-drop (suc n) (x ∷ xs) = omega (arith, length-drop n xs)

  pub take-length : (xs ys : List A) → take (length xs) (xs ++ ys) ≡ xs
  take-length [] ys = refl
  take-length (x ∷ xs) ys = ap (◌∷◌ x) (take-length xs ys)

  pub drop-length : (xs ys : List A) → drop (length xs) (xs ++ ys) ≡ ys
  drop-length [] ys = refl
  drop-length (x ∷ xs) ys = drop-length xs ys

  pub take_all : (n : ℕ) (xs : List A) → length xs ≤ n → take n xs ≡ xs
  take_all zero [] h = refl
  take_all zero (x ∷ xs) h = absurd (omega arith)
  take_all (suc n) [] h = refl
  take_all (suc n) (x ∷ xs) h = ap (◌∷◌ x) (take_all n xs (omega arith))

  -- The last `n` elements.
  abbrev pub last_elements : ℕ → List A → List A
  last_elements n xs = drop (length xs - n) xs

  drop-nil : (n : ℕ) → ◌≡◌ {A = List A} (drop n []) []
  drop-nil zero = refl
  drop-nil (suc n) = refl

  pub drop-drop : (i j : ℕ) (xs : List A) → drop i (drop j xs) ≡ drop (j + i) xs
  drop-drop i zero xs = ground arith
  drop-drop i (suc j) [] = ground (arith, drop-nil i, drop-nil (suc j + i))
  drop-drop zero (suc j) (x ∷ xs) = ground (arith, drop-drop zero j xs)
  drop-drop (suc i) (suc j) (x ∷ xs) =
      let shift : suc j + suc i ≡ suc (j + suc i) = omega arith in rw shift (drop-drop (suc i) j xs)

  drop-append : (n : ℕ) (xs ys : List A) → n ≤ length xs → drop n (xs ++ ys) ≡ drop n xs ++ ys
  drop-append zero xs ys h = refl
  drop-append (suc n) [] ys h = absurd (omega arith)
  drop-append (suc n) (x ∷ xs) ys h = drop-append n xs ys (omega arith)

  -- To keep the last `n` elements, what was dropped before does not matter.
  pub last_elements-append :
      (n : ℕ) (xs ys : List A)
      → last_elements n (last_elements n xs ++ ys) ≡ last_elements n (xs ++ ys)
  last_elements-append n xs ys =
      let a = length xs - n in
      rw (← drop-append a xs ys (omega arith)) (
        rw (length-drop a (xs ++ ys), drop-drop)
          (ap (λ k. drop k (xs ++ ys)) (omega (arith, length-append xs ys))))

  pub last_elements_all : (n : ℕ) (xs : List A) → length xs ≤ n → last_elements n xs ≡ xs
  last_elements_all n xs h = ap (λ k. drop k xs) {x = length xs - n} {y = 0} (omega arith)

  pub length-last_elements-le : (n : ℕ) (xs : List A) → length (last_elements n xs) ≤ n
  length-last_elements-le n xs = omega (arith, length-drop (length xs - n) xs)

  abbrev pub All {κ} : (A → Type κ) → List A → Type κ
  All P [] = Unit
  All P (x ∷ xs) = P x × All P xs

  pub All-append {κ} : (P : A → Type κ) (xs ys : List A) → All P xs → All P ys → All P (xs ++ ys)
  All-append P [] ys hx hy = hy
  All-append P (x ∷ xs) ys hx hy = (hx.0, All-append P xs ys hx.1 hy)

  pub All-split {κ} : (P : A → Type κ) (xs ys : List A) → All P (xs ++ ys) → All P xs × All P ys
  All-split P [] ys h = (tt, h)
  All-split P (x ∷ xs) ys h = let rest = All-split P xs ys h.1 in ((h.0, rest.0), rest.1)

module _ {ℓ} {A : Type ℓ} ⦃e : Eq A⦄ where
  abbrev pub contains : A → List A → Bool
  contains a [] = false
  contains a (x ∷ xs) = a == x || contains a xs

  -- `delete` on a set of keys: every copy goes.
  unfoldable pub remove : A → List A → List A
  remove a [] = []
  remove a (x ∷ xs) = let rest = remove a xs in if a == x then rest else x ∷ rest

  -- A `true` stored under a key of a map from keys to true.
  unfoldable pub add : A → List A → List A
  add a xs = if contains a xs then xs else a ∷ xs

  pub contains-append :
      (a : A) (xs ys : List A) → contains a (xs ++ ys) ≡ (contains a xs || contains a ys)
  contains-append a [] ys = refl
  contains-append a (x ∷ xs) ys = ground (arith, contains-append a xs ys)

  pub contains-remove :
      (a b : A) (xs : List A) → contains a (remove b xs) ≡ (if a == b then false else contains a xs)
  unfolding remove
  contains-remove a b [] = ground arith
  contains-remove a b (x ∷ xs) = ground (arith, contains-remove a b xs)

  pub contains-add :
      (a b : A) (xs : List A) → contains a (add b xs) ≡ (if a == b then true else contains a xs)
  unfolding add
  contains-add a b xs = ground arith

  -- No element is listed twice.
  abbrev pub NoRepeat : List A → Type 0
  NoRepeat [] = Unit
  NoRepeat (x ∷ xs) = (contains x xs ≡ false) × NoRepeat xs
