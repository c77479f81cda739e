-- ===== src/Go/Path/Parent.antt =====
-- `filepath.Dir` of a path with a last component takes that component away.
use mathlib.Core.List.{append_assoc, append-nil}
use hive_worker.Base.{
  Text, ◌≡◌, refl, sym, ap, ◌∙◌, true, false, List, [], ◌∷◌, ◌++◌, nat_eq, text_eq, All, arith,
  ℕ_discrete,
}
use hive_worker.Go.Text.{codes, is_empty, join}
use hive_worker.Go.Text.Split.{Lacks}
use hive_worker.Go.Path.{
  slash, is_rooted, components, absolute, clean, join_paths, up_to_slash, dir,
}
use hive_worker.Go.Path.Components.{
  IsName, components-absolute, components-join_names, absolute-join, is_rooted-absolute, join-clean,
}

up_to_slash-Lacks : (s : Text) → Lacks slash s → up_to_slash s ≡ []
unfolding up_to_slash
up_to_slash-Lacks [] h = refl
up_to_slash-Lacks (c ∷ s) h = ground (arith, up_to_slash-Lacks s)

not_empty : (s : Text) → is_empty (s ++ (slash ∷ [])) ≡ false
not_empty [] = refl
not_empty (c ∷ s) = refl

up_to_slash-append :
    (s t : Text) → Lacks slash t → up_to_slash (s ++ (slash ∷ t)) ≡ s ++ (slash ∷ [])
unfolding up_to_slash
up_to_slash-append [] t h = ground (arith, up_to_slash-Lacks t h)
up_to_slash-append (c ∷ s) t h = ground (arith, up_to_slash-append s t h, not_empty s)

-- The path of the components, as what stands before a slash.
abbrev before_slash : List Text → Text
before_slash [] = []
before_slash (name ∷ names) = absolute (name ∷ names)

absolute-snoc :
    (names : List Text) (name : Text)
    → absolute (names ++ (name ∷ [])) ≡ before_slash names ++ (slash ∷ name)
unfolding absolute join
absolute-snoc [] name = refl
absolute-snoc (first ∷ []) name = refl
absolute-snoc (first ∷ next ∷ names) name =
    ap (λ s. slash ∷ (first ++ s)) (absolute-snoc (next ∷ names) name)
    ∙ ap (◌∷◌ slash)
        (sym (append_assoc first (slash ∷ join (codes "/") (next ∷ names)) (slash ∷ name)))

components-join_nothing :
    (path : Text) → is_rooted path ≡ true → components (join_paths path []) ≡ components path
unfolding join
components-join_nothing path h = components-join_names path [] h tt ∙ append-nil (components path)

clean-before_slash :
    (names : List Text)
    → All IsName names
    → clean (before_slash names ++ (slash ∷ [])) ≡ absolute names
clean-before_slash [] h = unfold clean components absolute is_rooted join ℕ_discrete in refl
clean-before_slash (name ∷ names) h =
    let path = absolute (name ∷ names) in
    let rooted = is_rooted-absolute (name ∷ names) in
    sym (join-clean path [] rooted)
    ∙ (sym (absolute-join path [] rooted)
        ∙ ap absolute (components-join_nothing path rooted ∙ components-absolute (name ∷ names) h))

pub dir-absolute :
    (names : List Text) (name : Text)
    → All IsName names
    → IsName name
    → dir (absolute (names ++ (name ∷ []))) ≡ absolute names
unfolding dir
dir-absolute names name h n =
    rw (absolute-snoc names name, up_to_slash-append (before_slash names) name n.1)
      (clean-before_slash names h)
