-- ===== src/Go/Text/Affix.antt =====
-- `strings.HasPrefix` and `strings.HasSuffix` tell how a text begins and ends.
use mathlib.Core.List.{reverse, reverse-append, reverse-reverse}
use hive_worker.Base.{Text, ◌≡◌, refl, sym, ap, ◌∙◌, true, [], ◌∷◌, ◌++◌, nat_eq, arith}
use hive_worker.Go.Text.{has_prefix, has_suffix}

pub has_prefix-append : (p s : Text) → has_prefix (p ++ s) p ≡ true
unfolding has_prefix
has_prefix-append [] s = refl
has_prefix-append (c ∷ p) s = ground (arith, has_prefix-append p s)

pub has_suffix-append : (s p : Text) → has_suffix (s ++ p) p ≡ true
unfolding has_suffix
has_suffix-append s p = rw (reverse-append s p) (has_prefix-append (reverse p) (reverse s))

prefix_rest : (s p : Text) → has_prefix s p ≡ true → (rest : Text) × (s ≡ p ++ rest)
unfolding has_prefix
prefix_rest s [] h = (s, refl)
prefix_rest [] (d ∷ p) h = absurd (cc)
prefix_rest (c ∷ s) (d ∷ p) h =
    let (rest, e) = prefix_rest s p (ground arith) in (rest, ground (arith, e))

pub stem_of : (s p : Text) → has_suffix s p ≡ true → (stem : Text) × (s ≡ stem ++ p)
unfolding has_suffix
stem_of s p h =
    let (rest, e) = prefix_rest (reverse s) (reverse p) h in
    (
      reverse rest,
      sym (reverse-reverse s)
          ∙ (ap reverse e
              ∙ (reverse-append (reverse p) rest
                  ∙ ap (λ l. reverse rest ++ l) (reverse-reverse p))),
    )
