-- ===== src/Go/Path/Relative.antt =====
-- A clean relative path is made of names, or it begins with `..`.
use hive_worker.Base.{
  Text, ◌≡◌, ◌⊎◌, inl, inr, refl, true, false, ◌||◌, List, [], ◌∷◌, ◌==◌, text_eq, nat_eq, All,
  Bool-cases, arith,
}
use hive_worker.Go.Text.{is_empty, split}
use hive_worker.Go.Text.Split.{Lacks, split-parts}
use hive_worker.Go.Path.{slash, dot, dot_dot, back, is_rooted, visit, walk, unwind, components}
use hive_worker.Go.Path.Components.{IsName, unwind-All}

abbrev IsUp : Text → Type 0
IsUp part = part ≡ dot_dot

-- Names on top of any number of `..`.
abbrev IsClimb : List Text → Type 0
IsClimb [] = Unit
IsClimb (top ∷ stack) = (IsName top × IsClimb stack) ⊎ (IsUp top × All IsUp stack)

back-IsUp :
    (top : Text) (stack : List Text)
    → (top == dot_dot) ≡ true
    → IsClimb (top ∷ stack)
    → IsUp top × All IsUp stack
back-IsUp top stack h (inl name) = absurd (ground arith)
back-IsUp top stack h (inr up) = up

back-IsClimb_down :
    (top : Text) (stack : List Text)
    → (top == dot_dot) ≡ false
    → IsClimb (top ∷ stack)
    → IsClimb stack
back-IsClimb_down top stack h (inl name) = name.1
back-IsClimb_down top stack h (inr up) = absurd (ground arith)

back-IsClimb : (stack : List Text) → IsClimb stack → IsClimb (back false stack)
back-IsClimb [] h = inr (refl, tt)
back-IsClimb (top ∷ stack) h = elim (Bool-cases (top == dot_dot)) [
  | inl up ↦ rw up (inr (refl, back-IsUp top stack up h))
  | inr down ↦ rw down (back-IsClimb_down top stack down h)
]

visit-IsClimb :
    (stack : List Text) (part : Text)
    → IsClimb stack
    → Lacks slash part
    → IsClimb (visit false stack part)
visit-IsClimb stack part h p = elim (Bool-cases (is_empty part || part == dot)) [
  | inl skip ↦ rw skip h
  | inr kept ↦ elim (Bool-cases (part == dot_dot)) [
    | inl up ↦ rw (kept, up) (back-IsClimb stack h)
    | inr name ↦ rw (kept, name) (inl ((rw (kept, name) refl, p), h))
  ]
]

walk-IsClimb :
    (stack parts : List Text)
    → IsClimb stack
    → All (Lacks slash) parts
    → IsClimb (walk false stack parts)
unfolding walk
walk-IsClimb stack [] h p = h
walk-IsClimb stack (part ∷ parts) h p =
    walk-IsClimb (visit false stack part) parts (visit-IsClimb stack part h p.0) p.1

unwind-ups :
    (stack parts : List Text)
    → All IsUp stack
    → (rest : List Text) × (unwind stack (dot_dot ∷ parts) ≡ dot_dot ∷ rest)
unwind-ups [] parts h = (parts, refl)
unwind-ups (top ∷ stack) parts h = rw h.0 (unwind-ups stack (dot_dot ∷ parts) h.1)

unwind-cases :
    (stack parts : List Text)
    → IsClimb stack
    → All IsName stack ⊎ ((rest : List Text) × (unwind stack parts ≡ dot_dot ∷ rest))
unwind-cases [] parts h = inl tt
unwind-cases (top ∷ stack) parts (inl h) = elim (unwind-cases stack (top ∷ parts) h.1) [
  | inl names ↦ inl (h.0, names)
  | inr climb ↦ inr climb
]
unwind-cases (top ∷ stack) parts (inr h) = inr (rw h.0 (unwind-ups stack parts h.1))

pub relative-cases :
    (s : Text)
    → is_rooted s ≡ false
    → All IsName (components s) ⊎ ((rest : List Text) × (components s ≡ dot_dot ∷ rest))
unfolding components
relative-cases s h =
    rw h (elim (unwind-cases _ [] (walk-IsClimb [] (split slash s) tt (split-parts slash s))) [
      | inl names ↦ inl (unwind-All _ [] names tt)
      | inr climb ↦ inr climb
    ])
