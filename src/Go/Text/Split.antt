-- ===== src/Go/Text/Split.antt =====
-- Splitting and joining are inverse on parts that lack the separator.
use mathlib.Core.Logic.{if_pos, if_neg}
use hive_worker.Base.{
  ℕ, Text, ◌≡◌, ◌≢◌, refl, ap, ◌∙◌, false, List, [], ◌∷◌, ◌++◌, arith, nat_eq, contains, All,
  ℕ_discrete,
}
use hive_worker.Go.Text.{split, extend, join}

abbrev pub Lacks : ℕ → Text → Type 0
Lacks c s = contains c s ≡ false

module _ (sep : ℕ) where
  split-ne-nil : (s : Text) → split sep s ≢ []
  unfolding split
  split-ne-nil [] = λ h. cc
  split-ne-nil (c ∷ s) = ground (arith, split-ne-nil s)

  pub split-append : (s t : Text) → split sep (s ++ sep ∷ t) ≡ split sep s ++ split sep t
  unfolding split
  split-append [] t = ground arith
  split-append (c ∷ s) t = ground (arith, split-append s t, split-ne-nil s)

  pub split-Lacks : (s : Text) → Lacks sep s → split sep s ≡ s ∷ []
  unfolding split
  split-Lacks [] h = refl
  split-Lacks (c ∷ s) h = ground (arith, split-Lacks s)

  pub split-join :
      (part : Text) (parts : List Text)
      → All (Lacks sep) (part ∷ parts)
      → split sep (join (sep ∷ []) (part ∷ parts)) ≡ part ∷ parts
  unfolding join
  split-join part [] h = split-Lacks part h.0
  split-join part (next ∷ parts) h =
      split-append part (join (sep ∷ []) (next ∷ parts))
      ∙ ground (arith, split-Lacks part h.0, split-join next parts h.1)

  -- Every part of a split lacks the separator.
  pub split-parts : (s : Text) → All (Lacks sep) (split sep s)
  unfolding split
  split-parts [] = (refl, tt)
  split-parts (c ∷ s) = ground (arith, split-parts s, split-ne-nil s)

  join-extend :
      (c : ℕ) (parts : List Text)
      → parts ≢ []
      → join (sep ∷ []) (extend c parts) ≡ c ∷ join (sep ∷ []) parts
  unfolding join
  join-extend c [] h = absurd (h refl)
  join-extend c (part ∷ []) h = refl
  join-extend c (part ∷ next ∷ parts) h = refl

  join-cons_nil :
      (parts : List Text) → parts ≢ [] → join (sep ∷ []) ([] ∷ parts) ≡ sep ∷ join (sep ∷ []) parts
  unfolding join
  join-cons_nil [] h = absurd (h refl)
  join-cons_nil (part ∷ parts) h = refl

  pub join-split : (s : Text) → join (sep ∷ []) (split sep s) ≡ s
  unfolding split
  join-split [] = unfold join in refl
  join-split (c ∷ s) = elim (ℕ_discrete c sep) [
    | yes p ↦
        rw (if_pos _ p)
          (join-cons_nil (split sep s) (split-ne-nil s) ∙ ground (arith, join-split s))
    | no p ↦
        rw (if_neg _ p) (join-extend c (split sep s) (split-ne-nil s) ∙ ap (◌∷◌ c) (join-split s))
  ]
