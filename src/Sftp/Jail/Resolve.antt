-- ===== src/Sftp/Jail/Resolve.antt =====
-- What a resolved path is: below the root, and met by no link on the way.
use mathlib.Core.List.{append_assoc, append-nil}
use hive_worker.Base.{
  Text, ◌≡◌, ◌≢◌, ◌↔◌, refl, sym, ap, subst, ◌∙◌, Bool, true, false, List, [], ◌∷◌, ◌++◌, ◌==◌,
  text_eq, Result, ok, err, ◌>>◌, fail_if, All, All-split, All-append, arith, prefix-cases,
  last-cases, inl, inr, then_ok, fail_if-ok,
}
use hive_worker.Go.Path.{components, absolute, clean, dir}
use hive_worker.Go.Path.Components.{
  IsName, components-absolute, components-IsName, clean_rooted, is_rooted-absolute,
}
use hive_worker.Go.Path.Parent.{dir-absolute}
use hive_worker.Sftp.{Filesystem, FileInfo, DiskError, permission_denied}
use hive_worker.Sftp.Jail.{
  reject_symlink_components, resolve_existing, resolve_for_write, is_root, reject_existing_link,
}
use hive_worker.Sftp.Jail.Inside.{
  IsJail, inside, virtual_components, resolve_virtual_path_lem, jail_rooted, virtual-IsName,
}
use hive_worker.Sftp.Jail.Links.{AllPlain, reject_symlink_components_iff}

pub ok_eq {ℓ κ} : {E : Type ℓ} {A : Type κ} {a b : A} → ◌≡◌ {A = Result E A} (ok a) (ok b) → a ≡ b
ok_eq h = cc

same_info :
    {answer : Result DiskError FileInfo} {info found : FileInfo}
    → answer ≡ ok info
    → answer ≡ ok found
    → found.is_symlink ≡ false
    → info.is_symlink ≡ false
same_info p q h = cc

contrary : {b : Bool} → b ≡ true → b ≡ false → ⊥
contrary p q = cc

==-true : {a b : Text} → a ≡ b → (a == b) ≡ true
==-true p = ground arith

clean-absolute : (names : List Text) → All IsName names → clean (absolute names) ≡ absolute names
clean-absolute names h =
    clean_rooted _ (is_rooted-absolute names) ∙ ap absolute (components-absolute names h)

module _ (lstat : Text → Result DiskError FileInfo) (fs : Filesystem) where
  -- No path below the root by one or more of the names is a link.
  abbrev pub NoLinks : List Text → Type 0
  NoLinks names =
      (before after : List Text) (info : FileInfo)
      → names ≡ before ++ after
      → before ≢ []
      → lstat (absolute (components fs.root ++ before)) ≡ ok info
      → info.is_symlink ≡ false

  -- The path lies in the root, and no part of it below the root is a link.
  abbrev pub IsJailed : Text → Type 0
  IsJailed path =
      (names : List Text) × (All IsName names
        × ((path ≡ absolute (components fs.root ++ names)) × NoLinks names))

  AllPlain-NoLinks : (names : List Text) → AllPlain lstat (components fs.root) names → NoLinks names
  AllPlain-NoLinks names h before after info p ne q =
      let (found, (r, plain)) = h before after p ne in same_info q r plain

  existing-run :
      (virtual_path : Text)
      → IsJail fs
      → resolve_existing lstat fs virtual_path ≡ (
          reject_symlink_components lstat fs (inside fs virtual_path) true
          >> ok (inside fs virtual_path))
  unfolding resolve_existing
  existing-run virtual_path jail = rw (resolve_virtual_path_lem fs virtual_path jail) refl

  virtual_iff :
      (virtual_path : Text)
      → IsJail fs
      → (reject_symlink_components lstat fs (inside fs virtual_path) true ≡ ok tt)
        ↔ AllPlain lstat (components fs.root) (virtual_components virtual_path)
  virtual_iff virtual_path jail =
      reject_symlink_components_iff lstat fs (virtual_components virtual_path) (jail_rooted fs jail)
        (virtual-IsName virtual_path)

  -- In a jail, a path of a client resolves exactly if every path from the root to it exists and
  -- is not a link; it resolves to the path below the root.
  pub resolve_existing_iff :
      (virtual_path resolved : Text)
      → IsJail fs
      → (resolve_existing lstat fs virtual_path ≡ ok resolved) ↔ (
          (resolved ≡ inside fs virtual_path)
          × AllPlain lstat (components fs.root) (virtual_components virtual_path))
  resolve_existing_iff virtual_path resolved jail = (
    λ h.
        let q = then_ok (sym (existing-run virtual_path jail) ∙ h) in
        (ok_eq (sym q.1), (virtual_iff virtual_path jail).0 q.0),
    λ h.
        rw (existing-run virtual_path jail, (virtual_iff virtual_path jail).1 h.1)
          (ap ok (sym h.0)),
  )

  pub resolve_existing-IsJailed :
      (virtual_path resolved : Text)
      → IsJail fs
      → resolve_existing lstat fs virtual_path ≡ ok resolved
      → IsJailed resolved
  resolve_existing-IsJailed virtual_path resolved jail h =
      let q = (resolve_existing_iff virtual_path _ jail).0 h in
      (
        virtual_components virtual_path,
        (virtual-IsName virtual_path, (q.0, AllPlain-NoLinks _ q.1)),
      )

  not_link :
      {answer : Result DiskError FileInfo} {info : FileInfo}
      → answer ≡ ok info
      → reject_existing_link lstat answer ≡ ok tt
      → info.is_symlink ≡ false
  not_link {answer = ok found} p h = ground arith
  not_link {answer = err e} p h = absurd (cc)

  root_found : IsJail fs → is_root fs (absolute (components fs.root)) ≡ true
  unfolding is_root
  root_found (names, (h, p)) = ==-true (
      clean-absolute (components fs.root)
        (components-IsName fs.root (jail_rooted fs (names, (h, p))))
      ∙ (ap (λ root. absolute (components root)) p
          ∙ (ap absolute (components-absolute names h) ∙ sym p)))

  -- A parent without links and a last path that is no link.
  NoLinks-snoc :
      (init : List Text) (last : Text)
      → AllPlain lstat (components fs.root) init
      → reject_existing_link lstat (lstat (absolute (components fs.root ++ (init ++ (last ∷ [])))))
        ≡ ok tt
      → NoLinks (init ++ (last ∷ []))
  NoLinks-snoc init last h p before after info q ne found =
      elim (prefix-cases init last before after q) [
        | inl whole ↦ not_link found (
            subst
              (λ l. reject_existing_link lstat (lstat (absolute (components fs.root ++ l))) ≡ ok tt)
              (sym whole) p)
        | inr (rest, part) ↦ AllPlain-NoLinks init h before rest info part ne found
      ]

  write-run :
      (virtual_path : Text)
      → IsJail fs
      → resolve_for_write lstat fs virtual_path ≡ (do
        fail_if (is_root fs (inside fs virtual_path)) permission_denied
        reject_symlink_components lstat fs (dir (inside fs virtual_path)) true
        reject_existing_link lstat (lstat (inside fs virtual_path))
        ok (inside fs virtual_path))
  unfolding resolve_for_write
  write-run virtual_path jail = rw (resolve_virtual_path_lem fs virtual_path jail) refl

  write-snoc :
      (init : List Text) (name : Text)
      → IsJail fs
      → All IsName (init ++ (name ∷ []))
      → reject_symlink_components lstat fs
          (dir (absolute (components fs.root ++ (init ++ (name ∷ [])))))
          true
        ≡ ok tt
      → reject_existing_link lstat (lstat (absolute (components fs.root ++ (init ++ (name ∷ [])))))
        ≡ ok tt
      → NoLinks (init ++ (name ∷ []))
  write-snoc init name jail hn above last =
      let rooted = jail_rooted fs jail in
      let root = components fs.root in
      let parts = All-split IsName init (name ∷ []) hn in
      let parent =
        ap (λ l. dir (absolute l)) (sym (append_assoc root init (name ∷ [])))
        ∙ dir-absolute (root ++ init) name
            (All-append IsName root init (components-IsName fs.root rooted) parts.0) parts.1.0 in
      NoLinks-snoc init name
        ((reject_symlink_components_iff lstat fs init rooted parts.0).0
          (subst (λ path. reject_symlink_components lstat fs path true ≡ ok tt) parent above))
        last

  -- The checks of a path for writing, made of the path of some names.
  write-IsJailed :
      (names : List Text)
      → IsJail fs
      → All IsName names
      → is_root fs (absolute (components fs.root ++ names)) ≡ false
      → reject_symlink_components lstat fs (dir (absolute (components fs.root ++ names))) true
        ≡ ok tt
      → reject_existing_link lstat (lstat (absolute (components fs.root ++ names))) ≡ ok tt
      → NoLinks names
  write-IsJailed names jail hn root above last = elim (last-cases names) [
    | inl p ↦ absurd (
        contrary (root_found jail) (
          subst (λ l. is_root fs (absolute l) ≡ false)
            (ap (λ l. components fs.root ++ l) p ∙ append-nil (components fs.root)) root))
    | inr (init, name, p) ↦ subst NoLinks (sym p) (
        write-snoc init name jail (subst (All IsName) p hn)
          (subst
            (λ l.
              reject_symlink_components lstat fs (dir (absolute (components fs.root ++ l))) true
              ≡ ok tt)
            p above)
          (subst
            (λ l. reject_existing_link lstat (lstat (absolute (components fs.root ++ l))) ≡ ok tt) p
            last))
  ]

  pub resolve_for_write-IsJailed :
      (virtual_path resolved : Text)
      → IsJail fs
      → resolve_for_write lstat fs virtual_path ≡ ok resolved
      → IsJailed resolved
  resolve_for_write-IsJailed virtual_path resolved jail h =
      let a = then_ok (sym (write-run virtual_path jail) ∙ h) in
      let b = then_ok a.1 in
      let c = then_ok b.1 in
      (
        virtual_components virtual_path,
        (
          virtual-IsName virtual_path,
          (
            ok_eq (sym c.1),
            write-IsJailed (virtual_components virtual_path) jail (virtual-IsName virtual_path)
                (fail_if-ok _ _ a.0) b.0 c.0,
          ),
        ),
      )

  -- A path that the test for the root passes is not the root.
  pub root_path-is_root : IsJail fs → (path : Text) → is_root fs path ≡ false → path ≢ fs.root
  unfolding is_root
  root_path-is_root (names, (h, p)) path q e =
      contrary (==-true (ap clean e ∙ (ap clean p ∙ (clean-absolute names h ∙ sym p)))) q
