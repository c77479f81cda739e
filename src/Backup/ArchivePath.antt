-- ===== src/Backup/ArchivePath.antt =====
-- The path of an archive's entry, once accepted, leads below any directory that it is joined to.
use hive_worker.Base.{
  Text, ◌≡◌, ◌≢◌, inl, inr, refl, sym, ap, subst, ◌∙◌, Bool, true, false, ◌||◌, List, [], ◌∷◌, ◌++◌,
  ◌==◌, text_eq, nat_eq, contains, All, Bool-cases, ok, err, if◌then◌else◌, arith, ℕ_discrete,
}
use hive_worker.Go.Text.{codes, is_empty, split, join}
use hive_worker.Go.Path.{
  slash, dot, dot_dot, walk, unwind, is_rooted, components, absolute, relative_text, clean,
  join_paths, is_outside,
}
use hive_worker.Go.Path.Components.{
  IsName, clean_rooted, components-IsName, components-join, components-join_names,
}
use hive_worker.Go.Path.Inside.{dot_dot-is_outside}
use hive_worker.Go.Path.Relative.{relative-cases}
use hive_worker.Backup.{invalid_file_path, clean_archive_path}

-- Joined to the directory, the path is some names more than it.
abbrev pub IsBelow : Text → Text → Type 0
IsBelow directory path =
    (names : List Text) × (All IsName names
      × (components (join_paths directory path) ≡ components directory ++ names))

skip_slash :
    (stack : List Text) (path : Text)
    → unwind (walk true stack (split slash (slash ∷ path))) []
      ≡ unwind (walk true stack (split slash path)) []
unfolding split walk ℕ_discrete
skip_slash stack path = refl

join-slash :
    (directory path : Text)
    → is_rooted directory ≡ true
    → components (join_paths directory (slash ∷ path)) ≡ components (join_paths directory path)
join-slash directory path h =
    components-join directory (slash ∷ path) h
    ∙ (skip_slash (walk true [] (split slash directory)) path
        ∙ sym (components-join directory path h))

clean_relative : (s : Text) → is_rooted s ≡ false → clean s ≡ relative_text (components s)
unfolding clean
clean_relative s h = rw h refl

names-IsBelow :
    (directory : Text) (names : List Text)
    → is_rooted directory ≡ true
    → All IsName names
    → relative_text names ≢ dot
    → IsBelow directory (relative_text names)
names-IsBelow directory [] h hn ne = absurd (ne refl)
names-IsBelow directory (name ∷ names) h hn ne =
    (name ∷ names, (hn, components-join_names directory (name ∷ names) h hn))

absolute-IsBelow :
    (directory : Text) (names : List Text)
    → is_rooted directory ≡ true
    → All IsName names
    → IsBelow directory (absolute names)
unfolding absolute
absolute-IsBelow directory names h hn = (
  names,
  (
    hn,
    join-slash directory (join (codes "/") names) h ∙ components-join_names directory names h hn,
  ),
)

no_climb : true ≡ false → ⊥
no_climb p = cc

climbs :
    {found : Bool} (rest : List Text)
    → found ≡ is_outside (relative_text (dot_dot ∷ rest))
    → found ≡ false
    → ⊥
climbs rest p q = no_climb (sym (dot_dot-is_outside rest) ∙ (sym p ∙ q))

pub clean-IsBelow :
    (directory s : Text)
    → is_rooted directory ≡ true
    → clean s ≢ dot
    → is_outside (clean s) ≡ false
    → IsBelow directory (clean s)
clean-IsBelow directory s h ne inside = elim (Bool-cases (is_rooted s)) [
  | inl rooted ↦
      subst (IsBelow directory) (sym (clean_rooted s rooted))
        (absolute-IsBelow directory (components s) h (components-IsName s rooted))
  | inr relative ↦ elim (relative-cases s relative) [
    | inl names ↦
        subst (IsBelow directory) (sym (clean_relative s relative))
          (names-IsBelow directory (components s) h names (λ e. ne (clean_relative s relative ∙ e)))
    | inr (rest, climb) ↦
        absurd
          (climbs rest (ap is_outside (clean_relative s relative ∙ ap relative_text climb)) inside)
  ]
]

accepted :
    (cleaned path : Text)
    → (if cleaned == dot || is_empty cleaned || is_outside cleaned || contains 0 cleaned
        then err invalid_file_path
        else ok cleaned)
      ≡ ok path
    → (cleaned ≢ dot) × ((is_outside cleaned ≡ false) × (cleaned ≡ path))
accepted cleaned path h = (λ e. absurd (ground arith), (ground arith, ground arith))

-- An accepted path of an archive's entry, joined to an absolute directory, has the components of
-- the directory followed by names, none of which is `..`.
pub clean_archive_path-IsBelow :
    (directory entry path : Text)
    → is_rooted directory ≡ true
    → clean_archive_path entry ≡ ok path
    → IsBelow directory path
unfolding clean_archive_path
clean_archive_path-IsBelow directory entry path h p =
    let (ne, (inside, same)) = accepted _ path p in
    subst (IsBelow directory) same (clean-IsBelow directory _ h ne inside)
