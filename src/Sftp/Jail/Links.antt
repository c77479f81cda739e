-- ===== src/Sftp/Jail/Links.antt =====
-- `rejectSymlinkComponents` looks at every path between the root and its argument.
use mathlib.Core.List.{append_assoc}
use hive_worker.Base.{
  Text, ◌≡◌, ◌≢◌, ◌↔◌, refl, sym, ap, subst, ◌∙◌, true, false, ◌||◌, List, [], ◌∷◌, ◌++◌, ◌==◌,
  nat_eq, text_eq, Result, ok, err, ◌>>=◌, ◌>>◌, All, All-append, arith, if◌then◌else◌, ℕ_discrete,
  Bool-cases, cons_eq, nil-ne-cons, inl, inr,
}
use hive_worker.Go.Text.{is_empty, split, join}
use hive_worker.Go.Text.Split.{split-join}
use hive_worker.Go.Path.{
  slash, dot, is_rooted, components, absolute, join_paths, rel, relative_text,
}
use hive_worker.Go.Path.Components.{
  IsName, names-Lacks, components-IsName, components-absolute, components-join_names, absolute-join,
  is_rooted-absolute, is_rooted-join,
}
use hive_worker.Go.Path.Inside.{rel_parts-append}
use hive_worker.Sftp.{Filesystem, FileInfo, DiskError, Error}
use hive_worker.Sftp.Jail.Inside.{ensure_inside_root-Extends}
use hive_worker.Sftp.Jail.{reject_links_from, reject_symlink_components, reject_link, from_disk}

-- A name joined to an absolute path is one component more.
components-join_name :
    (current name : Text)
    → is_rooted current ≡ true
    → IsName name
    → components (join_paths current name) ≡ components current ++ (name ∷ [])
unfolding join
components-join_name current name h n = components-join_names current (name ∷ []) h (n, tt)

name-kept : (name : Text) → IsName name → (is_empty name || name == dot) ≡ false
name-kept name n = ground arith

-- The path exists and is not a link.
abbrev pub IsPlain : Result DiskError FileInfo → Type 0
IsPlain answer = (info : FileInfo) × ((answer ≡ ok info) × (info.is_symlink ≡ false))

check-IsPlain :
    (answer : Result DiskError FileInfo) (later : Result Error (Unit {0}))
    → (do info ← from_disk answer; reject_link info; later) ≡ ok tt
    → IsPlain answer × (later ≡ ok tt)
check-IsPlain (err e) later h = absurd (ground arith)
check-IsPlain (ok info) later h = elim (Bool-cases info.is_symlink) [
  | inl t ↦ absurd (ground arith)
  | inr f ↦ ((info, (refl, f)), ground arith)
]

IsPlain-check :
    (answer : Result DiskError FileInfo) (later : Result Error (Unit {0}))
    → IsPlain answer
    → later ≡ ok tt
    → (do info ← from_disk answer; reject_link info; later) ≡ ok tt
IsPlain-check answer later (info, (p, q)) h = ground arith

module _ (lstat : Text → Result DiskError FileInfo) where
  -- One step of the loop over a name.
  reject_links-step :
      (current name : Text) (rest : List Text)
      → IsName name
      → (reject_links_from lstat true current (name ∷ rest) ≡ ok tt) ↔ (
          IsPlain (lstat (join_paths current name))
          × (reject_links_from lstat true (join_paths current name) rest ≡ ok tt))
  unfolding reject_links_from
  reject_links-step current name rest n =
      rw (name-kept name n) (check-IsPlain _ _, λ h. IsPlain-check _ _ h.0 h.1)

  -- Every path below the first, by one or more of the names, is plain.
  abbrev pub AllPlain : List Text → List Text → Type 0
  AllPlain start names =
      (before after : List Text)
      → names ≡ before ++ after
      → before ≢ []
      → IsPlain (lstat (absolute (start ++ before)))

  reject_links-AllPlain :
      (current : Text) (names : List Text)
      → is_rooted current ≡ true
      → All IsName names
      → reject_links_from lstat true current names ≡ ok tt
      → AllPlain (components current) names
  reject_links-AllPlain current names h hn p [] after q ne = absurd (ne refl)
  reject_links-AllPlain current [] h hn p (b ∷ before) after q ne = absurd (nil-ne-cons q)
  reject_links-AllPlain current (name ∷ names) h hn p (b ∷ []) after q ne =
      let step = (reject_links-step current name names hn.0).0 p in
      subst (λ path. IsPlain (lstat path))
        (sym (absolute-join current name h)
          ∙ ap absolute (
              components-join_name current name h hn.0
              ∙ ap (λ n. components current ++ (n ∷ [])) (cons_eq q).0))
        step.0
  reject_links-AllPlain current (name ∷ names) h hn p (b ∷ next ∷ before) after q ne =
      let step = (reject_links-step current name names hn.0).0 p in
      subst (λ path. IsPlain (lstat (absolute path)))
        (ap (λ names. names ++ (next ∷ before)) (components-join_name current name h hn.0)
          ∙ (append_assoc (components current) (name ∷ []) (next ∷ before)
              ∙ ap (λ n. components current ++ (n ∷ next ∷ before)) (cons_eq q).0))
        (reject_links-AllPlain (join_paths current name) names (is_rooted-join current name h) hn.1
          step.1 (next ∷ before) after (cons_eq q).1 (λ e. nil-ne-cons (sym e)))

  AllPlain-reject_links :
      (current : Text) (names : List Text)
      → is_rooted current ≡ true
      → All IsName names
      → AllPlain (components current) names
      → reject_links_from lstat true current names ≡ ok tt
  AllPlain-reject_links current [] h hn p = unfold reject_links_from in refl
  AllPlain-reject_links current (name ∷ names) h hn p =
      (reject_links-step current name names hn.0).1 (
        subst (λ path. IsPlain (lstat path))
            (ap absolute (sym (components-join_name current name h hn.0))
              ∙ absolute-join current name h)
            (p (name ∷ []) names refl (λ e. nil-ne-cons (sym e))),
        AllPlain-reject_links (join_paths current name) names (is_rooted-join current name h) hn.1
            (λ before after q ne.
              subst (λ path. IsPlain (lstat (absolute path)))
                (sym (
                  ap (λ names. names ++ before) (components-join_name current name h hn.0)
                  ∙ append_assoc (components current) (name ∷ []) before))
                (p (name ∷ before) after (ap (λ l. name ∷ l) q) (λ e. nil-ne-cons (sym e)))),
      )

names-not_dot :
    (name : Text) (names : List Text) → IsName name → (relative_text (name ∷ names) == dot) ≡ false
unfolding join
names-not_dot name [] h = ground arith
names-not_dot [] (next ∷ names) h = absurd (cc)
names-not_dot (a ∷ []) (next ∷ names) h = ground arith
names-not_dot (a ∷ b ∷ name) (next ∷ names) h = ground arith

below-IsName :
    (start : Text) (names : List Text)
    → is_rooted start ≡ true
    → All IsName names
    → All IsName (components start ++ names)
below-IsName start names h hn = All-append IsName _ names (components-IsName start h) hn

rel-below :
    (start : Text) (names : List Text)
    → is_rooted start ≡ true
    → All IsName names
    → rel start (absolute (components start ++ names)) ≡ relative_text names
unfolding rel
rel-below start names h hn =
    rw (components-absolute _ (below-IsName start names h hn))
      (ap relative_text (rel_parts-append (components start) names))

module _ (lstat : Text → Result DiskError FileInfo) (fs : Filesystem) where
  reject_rest-names :
      (names : List Text)
      → All IsName names
      → (if relative_text names == dot
          then ok tt
          else reject_links_from lstat true fs.root (split slash (relative_text names)))
        ≡ reject_links_from lstat true fs.root names
  reject_rest-names [] hn = unfold reject_links_from text_eq ℕ_discrete in refl
  reject_rest-names (name ∷ names) hn =
      rw
        (names-not_dot name names hn.0, split-join slash name names (names-Lacks (name ∷ names) hn))
        refl

  -- On a path below the root, the links are looked for name by name.
  reject-below :
      (names : List Text)
      → is_rooted fs.root ≡ true
      → All IsName names
      → reject_symlink_components lstat fs (absolute (components fs.root ++ names)) true
        ≡ reject_links_from lstat true fs.root names
  unfolding reject_symlink_components
  reject-below names h hn =
      rw
        (
          ensure_inside_root-Extends fs (absolute (components fs.root ++ names))
              (is_rooted-absolute _)
              (names, components-absolute _ (below-IsName fs.root names h hn)),
          rel-below fs.root names h hn,
        )
        (reject_rest-names names hn)

  -- From a rooted start, no link is refused exactly if every path from the root on is plain.
  pub reject_symlink_components_iff :
      (names : List Text)
      → is_rooted fs.root ≡ true
      → All IsName names
      → (reject_symlink_components lstat fs (absolute (components fs.root ++ names)) true ≡ ok tt)
        ↔ AllPlain lstat (components fs.root) names
  reject_symlink_components_iff names h hn = rw (reject-below names h hn) (
    reject_links-AllPlain lstat fs.root names h hn,
    AllPlain-reject_links lstat fs.root names h hn,
  )
