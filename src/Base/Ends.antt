-- ===== src/Base/Ends.antt =====
-- Lists by their last element, and the lists that they begin with.
use mathlib.Core.Path.{◌≡◌, refl, sym, ap, ap₂}
use mathlib.Core.Logic.{◌⊎◌, inl, inr}
use mathlib.Core.List.{List, [], ◌∷◌, ◌++◌}

module _ {ℓ} {A : Type ℓ} where
  pub cons_eq :
      {a b : A} {xs ys : List A} → ◌≡◌ {A = List A} (a ∷ xs) (b ∷ ys) → (a ≡ b) × (xs ≡ ys)
  cons_eq h = (cc, cc)

  pub nil-ne-cons : {a : A} {xs : List A} → ◌≡◌ {A = List A} [] (a ∷ xs) → ⊥
  nil-ne-cons h = cc

  pub last-cases :
      (xs : List A) → (xs ≡ []) ⊎ ((init : List A) × (last : A) × (xs ≡ init ++ (last ∷ [])))
  last-cases [] = inl refl
  last-cases (x ∷ xs) = elim (last-cases xs) [
    | inl p ↦ inr ([], x, ap (λ l. x ∷ l) p)
    | inr (init, last, p) ↦ inr (x ∷ init, last, ap (λ l. x ∷ l) p)
  ]

  -- A list that another one begins with, either whole or without the last element.
  pub prefix-cases :
      (init : List A) (last : A) (before after : List A)
      → init ++ (last ∷ []) ≡ before ++ after
      → (before ≡ init ++ (last ∷ [])) ⊎ ((rest : List A) × (init ≡ before ++ rest))
  prefix-cases init last [] after p = inr (init, refl)
  prefix-cases [] last (b ∷ []) after p = inl (ap (λ x. x ∷ []) (sym (cons_eq p).0))
  prefix-cases [] last (b ∷ c ∷ before) after p = absurd (nil-ne-cons (cons_eq p).1)
  prefix-cases (x ∷ init) last (b ∷ before) after p =
      elim (prefix-cases init last before after (cons_eq p).1) [
        | inl q ↦ inl (ap₂ (λ y l. y ∷ l) (sym (cons_eq p).0) q)
        | inr (rest, q) ↦ inr (rest, ap₂ (λ y l. y ∷ l) (cons_eq p).0 q)
      ]
