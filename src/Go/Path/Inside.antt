-- ===== src/Go/Path/Inside.antt =====
-- The test on a relative path accepts exactly the targets inside the base.
use hive_worker.Base.{
  ap₂, Text, ◌≡◌, ◌↔◌, ◌⊎◌, inl, inr, refl, sym, true, false, List, [], ◌∷◌, ◌++◌, ◌==◌, text_eq,
  nat_eq, All, All-split, arith, ℕ_discrete, subst,
}
use hive_worker.Go.Text.{codes, has_prefix, join}
use hive_worker.Go.Path.{
  slash, dot_dot, is_rooted, components, rel, rel_parts, ups, relative_text, is_outside,
}
use hive_worker.Go.Path.Components.{IsName, components-IsName}

-- The path begins with the components of the base.
abbrev pub Extends : List Text → List Text → Type 0
Extends path base = (rest : List Text) × (path ≡ base ++ rest)

pub rel_parts-append : (base rest : List Text) → rel_parts base (base ++ rest) ≡ rest
rel_parts-append [] rest = refl
rel_parts-append (b ∷ base) rest = ground (arith, rel_parts-append base rest)

rel_parts-cases :
    (base target : List Text)
    → Extends target base ⊎ ((more : List Text) × (rel_parts base target ≡ dot_dot ∷ more))
rel_parts-cases [] target = inl (target, refl)
rel_parts-cases (b ∷ base) [] = inr (ups base, refl)
rel_parts-cases (b ∷ base) (t ∷ target) = elim (text_eq.dec b t) [
  | yes p ↦ elim (rel_parts-cases base target) [
    | inl (rest, q) ↦ inl (rest, ap₂ (λ x xs. x ∷ xs) (sym p) q)
    | inr (more, q) ↦ inr (more, ground (arith, q))
  ]
  | no p ↦ inr (ups base ++ (t ∷ target), ground arith)
]

name-prefix :
    (name rest : Text) → IsName name → has_prefix (name ++ (slash ∷ rest)) (codes "../") ≡ false
unfolding has_prefix
name-prefix [] rest h = absurd (cc)
name-prefix (a ∷ []) rest h = ground arith
name-prefix (a ∷ b ∷ []) rest h = ground arith
name-prefix (a ∷ b ∷ c ∷ s) rest h = ground arith

name_slash : (name rest : Text) → IsName name → (name ++ (slash ∷ rest) == dot_dot) ≡ false
name_slash [] rest h = absurd (cc)
name_slash (a ∷ []) rest h = ground arith
name_slash (a ∷ b ∷ []) rest h = ground arith
name_slash (a ∷ b ∷ c ∷ s) rest h = ground arith

name-prefix_alone : (name : Text) → IsName name → has_prefix name (codes "../") ≡ false
unfolding has_prefix
name-prefix_alone [] h = absurd (cc)
name-prefix_alone (a ∷ []) h = ground arith
name-prefix_alone (a ∷ b ∷ []) h = ground arith
name-prefix_alone (a ∷ b ∷ c ∷ s) h = ground arith

names-is_outside : (names : List Text) → All IsName names → is_outside (relative_text names) ≡ false
unfolding is_outside
names-is_outside [] h = unfold has_prefix text_eq ℕ_discrete in refl
names-is_outside (name ∷ []) h = unfold join in ground (arith, name-prefix_alone name h.0)
names-is_outside (name ∷ next ∷ names) h =
    unfold join in
    ground (
      arith,
      name-prefix name (join (codes "/") (next ∷ names)) h.0,
      name_slash name (join (codes "/") (next ∷ names)) h.0,
    )

pub dot_dot-is_outside : (more : List Text) → is_outside (relative_text (dot_dot ∷ more)) ≡ true
unfolding is_outside join has_prefix text_eq ℕ_discrete
dot_dot-is_outside [] = refl
dot_dot-is_outside (next ∷ more) = ground arith

outside-ne :
    {parts more : List Text}
    → parts ≡ dot_dot ∷ more
    → is_outside (relative_text parts) ≡ false
    → is_outside (relative_text (dot_dot ∷ more)) ≡ true
    → ⊥
outside-ne p h q = cc

rel_parts-Extends :
    (base target : List Text)
    → is_outside (relative_text (rel_parts base target)) ≡ false
    → Extends target base
rel_parts-Extends base target h = elim (rel_parts-cases base target) [
  | inl e ↦ e
  | inr (more, p) ↦ absurd (outside-ne p h (dot_dot-is_outside more))
]

-- From an absolute base, the relative path of an absolute target is not outside exactly if the
-- components of the target begin with those of the base.
pub is_outside-rel :
    (base target : Text)
    → is_rooted target ≡ true
    → (is_outside (rel base target) ≡ false) ↔ Extends (components target) (components base)
unfolding rel
is_outside-rel base target h = (
  rel_parts-Extends (components base) (components target),
  λ e.
      let names = subst (All IsName) e.1 (components-IsName target h) in
      rw (e.1, rel_parts-append (components base) e.0)
        (names-is_outside e.0 (All-split IsName (components base) e.0 names).1),
)
