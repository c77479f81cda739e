-- ===== src/Go/Path/Components.antt =====
-- The components of a cleaned absolute path are names, and they determine the path.
use hive_worker.Base.{
  Text, ◌≡◌, refl, sym, ap, ◌∙◌, Bool, true, not, ◌&&◌, ◌||◌, List, [], ◌∷◌, ◌++◌, ◌==◌, text_eq,
  nat_eq, All, arith, ℕ_discrete,
}
use mathlib.Core.List.{append_assoc, append-nil}
use hive_worker.Go.Text.{codes, is_empty, has_prefix, split, join}
use hive_worker.Go.Text.Split.{Lacks, split-append, split-join, split-parts}
use hive_worker.Go.Path.{
  slash, dot, dot_dot, is_rooted, visit, walk, unwind, components, absolute, clean, join_paths,
}

-- A component that names an entry of a directory.
abbrev pub is_name : Text → Bool
is_name part = not (is_empty part || part == dot) && not (part == dot_dot)

abbrev pub IsName : Text → Type 0
IsName part = (is_name part ≡ true) × Lacks slash part

visit-All :
    (stack : List Text) (part : Text)
    → All IsName stack
    → Lacks slash part
    → All IsName (visit true stack part)
visit-All [] part hs hp = ground arith
visit-All (top ∷ stack) part hs hp = ground arith

pub walk-All :
    (stack parts : List Text)
    → All IsName stack
    → All (Lacks slash) parts
    → All IsName (walk true stack parts)
unfolding walk
walk-All stack [] hs hp = hs
walk-All stack (part ∷ parts) hs hp =
    walk-All (visit true stack part) parts (visit-All stack part hs hp.0) hp.1

pub unwind-All :
    (stack parts : List Text)
    → All IsName stack
    → All IsName parts
    → All IsName (unwind stack parts)
unwind-All [] parts hs hp = hp
unwind-All (top ∷ stack) parts hs hp = unwind-All stack (top ∷ parts) hs.1 (hs.0, hp)

pub unwind-append : (stack parts : List Text) → unwind stack parts ≡ unwind stack [] ++ parts
unwind-append [] parts = refl
unwind-append (top ∷ stack) parts =
    unwind-append stack (top ∷ parts)
    ∙ (sym (append_assoc (unwind stack []) (top ∷ []) parts)
        ∙ ap (λ l. l ++ parts) (sym (unwind-append stack (top ∷ []))))

pub walk-append :
    (stack parts rest : List Text)
    → walk true stack (parts ++ rest) ≡ walk true (walk true stack parts) rest
unfolding walk
walk-append stack [] rest = refl
walk-append stack (part ∷ parts) rest = walk-append (visit true stack part) parts rest

-- Names are only pushed.
pub walk-names :
    (stack names : List Text)
    → All IsName names
    → unwind (walk true stack names) [] ≡ unwind stack names
unfolding walk
walk-names stack [] h = refl
walk-names stack (name ∷ names) h = ground (arith, walk-names (name ∷ stack) names h.1)

pub components-IsName : (s : Text) → is_rooted s ≡ true → All IsName (components s)
unfolding components
components-IsName s h =
    rw h (unwind-All _ [] (walk-All [] (split slash s) tt (split-parts slash s)) tt)

pub names-Lacks : (names : List Text) → All IsName names → All (Lacks slash) names
names-Lacks [] h = tt
names-Lacks (name ∷ names) h = (h.0.1, names-Lacks names h.1)

pub components_rooted :
    (s : Text) → is_rooted s ≡ true → components s ≡ unwind (walk true [] (split slash s)) []
unfolding components
components_rooted s h = rw h refl

pub components-slash :
    (s : Text) → components (slash ∷ s) ≡ unwind (walk true [] (split slash s)) []
unfolding components split walk is_rooted ℕ_discrete
components-slash s = refl

walk-join :
    (stack names : List Text)
    → All IsName names
    → unwind (walk true stack (split slash (join (codes "/") names))) [] ≡ unwind stack [] ++ names
unfolding join
walk-join stack [] h = unfold split walk in sym (append-nil (unwind stack []))
walk-join stack (name ∷ names) h =
    rw (split-join slash name names (names-Lacks (name ∷ names) h))
      (walk-names stack (name ∷ names) h ∙ unwind-append stack (name ∷ names))

-- The components of an absolute path made of names are these names.
pub components-absolute :
    (names : List Text) → All IsName names → components (absolute names) ≡ names
unfolding absolute join
components-absolute [] h = components-slash [] ∙ unfold split walk in refl
components-absolute (name ∷ names) h =
    components-slash _
    ∙ rw (split-join slash name names (names-Lacks (name ∷ names) h))
        (walk-names [] (name ∷ names) h)

rooted_cons : (s : Text) → is_rooted s ≡ true → (rest : Text) × (s ≡ slash ∷ rest)
unfolding is_rooted has_prefix
rooted_cons [] h = absurd (cc)
rooted_cons (c ∷ s) h = (s, ground arith)

pub clean_rooted : (s : Text) → is_rooted s ≡ true → clean s ≡ absolute (components s)
unfolding clean
clean_rooted s h = rw h refl

pub is_rooted-absolute : (names : List Text) → is_rooted (absolute names) ≡ true
unfolding absolute is_rooted has_prefix ℕ_discrete
is_rooted-absolute names = refl

pub components-clean : (s : Text) → is_rooted s ≡ true → components (clean s) ≡ components s
components-clean s h =
    rw (clean_rooted s h) (components-absolute (components s) (components-IsName s h))

pub join-clean : (a b : Text) → is_rooted a ≡ true → join_paths a b ≡ clean (a ++ (slash ∷ b))
unfolding join_paths is_rooted has_prefix
join-clean [] b h = absurd (cc)
join-clean (c ∷ a) b h = refl

pub is_rooted-append : (a b : Text) → is_rooted a ≡ true → is_rooted (a ++ b) ≡ true
unfolding is_rooted has_prefix
is_rooted-append [] b h = absurd (cc)
is_rooted-append (c ∷ a) b h = h

-- A path joined to an absolute one is walked from the components of the latter.
pub components-join :
    (a b : Text)
    → is_rooted a ≡ true
    → components (join_paths a b)
      ≡ unwind (walk true (walk true [] (split slash a)) (split slash b)) []
components-join a b h =
    rw (join-clean a b h, components-clean _ (is_rooted-append a (slash ∷ b) h))
      (components_rooted (a ++ (slash ∷ b)) (is_rooted-append a (slash ∷ b) h)
        ∙ rw (split-append slash a b, walk-append [] (split slash a) (split slash b)) refl)

pub is_rooted-join : (a b : Text) → is_rooted a ≡ true → is_rooted (join_paths a b) ≡ true
is_rooted-join a b h =
    rw (join-clean a b h, clean_rooted _ (is_rooted-append a (slash ∷ b) h)) (is_rooted-absolute _)

-- Joining names to an absolute path appends them to its components.
pub components-join_names :
    (a : Text) (names : List Text)
    → is_rooted a ≡ true
    → All IsName names
    → components (join_paths a (join (codes "/") names)) ≡ components a ++ names
components-join_names a names h hn =
    rw (components-join a _ h, components_rooted a h)
      (walk-join (walk true [] (split slash a)) names hn)

pub absolute-join :
    (a b : Text) → is_rooted a ≡ true → absolute (components (join_paths a b)) ≡ join_paths a b
absolute-join a b h =
    let rooted = is_rooted-append a (slash ∷ b) h in
    rw (join-clean a b h, components-clean _ rooted) (sym (clean_rooted _ rooted))
