-- ===== src/Sftp/Jail/Inside.antt =====
-- Virtual paths lead inside the root, and links on the way are found.
use hive_worker.Base.{
  Text, ◌≡◌, refl, sym, ap, ◌∙◌, true, not, List, [], ◌∷◌, ◌++◌, nat_eq, text_eq, Result, ok, err,
  ◌>>◌, All, All-append, not, subst, arith, if◌then◌else◌, ℕ_discrete,
}
use hive_worker.Go.Text.{codes, is_empty, has_prefix, trim_space, trim_prefix, split, join}
use hive_worker.Go.Path.{slash, is_rooted, walk, components, absolute, clean, join_paths, abs}
use hive_worker.Go.Path.Components.{
  IsName, components-IsName, components-absolute, components-slash, components-join_names,
  clean_rooted, is_rooted-absolute, is_rooted-join,
}
use hive_worker.Go.Path.Abs.{abs_rooted}
use hive_worker.Go.Path.Inside.{Extends, is_outside-rel}
use hive_worker.Sftp.{disk, root_not_directory, Filesystem, Permissions, FileInfo, DiskError}
use hive_worker.Sftp.Jail.{create, ensure_inside_root, resolve_virtual_path}

-- The root is a cleaned absolute path, as `Create` leaves it.
abbrev pub IsJail : Filesystem → Type 0
IsJail fs = (names : List Text) × (All IsName names × (fs.root ≡ absolute names))

-- The components of a path that a client sends.
abbrev pub virtual_components : Text → List Text
virtual_components virtual_path = components (slash ∷ trim_space virtual_path)

is_rooted-slash : (s : Text) → is_rooted (slash ∷ s) ≡ true
unfolding is_rooted has_prefix ℕ_discrete
is_rooted-slash s = refl

components-slash-slash : (s : Text) → components (slash ∷ slash ∷ s) ≡ components (slash ∷ s)
components-slash-slash s =
    components-slash (slash ∷ s) ∙ (unfold split walk ℕ_discrete in refl ∙ sym (components-slash s))

components-trim_prefix :
    (s : Text) → components (slash ∷ trim_prefix s (codes "/")) ≡ components (slash ∷ s)
unfolding trim_prefix has_prefix
components-trim_prefix [] = refl
components-trim_prefix (c ∷ s) = ground (arith, components-slash-slash s)

trim_prefix-absolute :
    (names : List Text) → trim_prefix (absolute names) (codes "/") ≡ join (codes "/") names
unfolding trim_prefix has_prefix absolute ℕ_discrete
trim_prefix-absolute names = refl

pub ensure_inside_root-Extends :
    (fs : Filesystem) (resolved : Text)
    → is_rooted resolved ≡ true
    → Extends (components resolved) (components fs.root)
    → ensure_inside_root fs resolved ≡ ok tt
unfolding ensure_inside_root
ensure_inside_root-Extends fs resolved h e = rw ((is_outside-rel fs.root resolved h).1 e) refl

pub jail_rooted : (fs : Filesystem) → IsJail fs → is_rooted fs.root ≡ true
jail_rooted fs (names, (h, p)) = rw p (is_rooted-absolute names)

pub virtual-IsName : (virtual_path : Text) → All IsName (virtual_components virtual_path)
virtual-IsName virtual_path = components-IsName _ (is_rooted-slash (trim_space virtual_path))

-- The path that the source cleans has the components of the virtual path.
cleaned_components :
    (s : Text)
    → components (slash ∷ trim_prefix (if is_empty s then codes "/" else s) (codes "/"))
      ≡ components (slash ∷ s)
cleaned_components [] = unfold trim_prefix has_prefix ℕ_discrete in refl
cleaned_components (c ∷ s) = components-trim_prefix (c ∷ s)

-- Where a virtual path leads: below the root, by its own components.
abbrev pub inside : Filesystem → Text → Text
inside fs virtual_path = absolute (components fs.root ++ virtual_components virtual_path)

resolved_path :
    (fs : Filesystem) (s : Text)
    → IsJail fs
    → clean (join_paths fs.root (trim_prefix (clean (slash ∷ s)) (codes "/")))
      ≡ absolute (components fs.root ++ components (slash ∷ s))
resolved_path fs s jail =
    let root = jail_rooted fs jail in
    rw
      (
        clean_rooted (slash ∷ s) (is_rooted-slash s),
        trim_prefix-absolute (components (slash ∷ s)),
        clean_rooted _ (is_rooted-join fs.root (join (codes "/") (components (slash ∷ s))) root),
      )
      (ap absolute (
        components-join_names fs.root (components (slash ∷ s)) root
          (components-IsName _ (is_rooted-slash s))))

pub inside-components :
    (fs : Filesystem) (virtual_path : Text)
    → IsJail fs
    → components (inside fs virtual_path) ≡ components fs.root ++ virtual_components virtual_path
inside-components fs virtual_path jail = components-absolute _ (
    All-append IsName _ _ (components-IsName fs.root (jail_rooted fs jail))
      (virtual-IsName virtual_path))

inside-accepted :
    (fs : Filesystem) (virtual_path : Text)
    → IsJail fs
    → ensure_inside_root fs (inside fs virtual_path) ≡ ok tt
inside-accepted fs virtual_path jail =
    ensure_inside_root-Extends fs _ (is_rooted-absolute _)
      (virtual_components virtual_path, inside-components fs virtual_path jail)

-- In a jail, a virtual path never fails to resolve: it leads to the root's path followed by the
-- components of the trimmed virtual path, taken from the root.
pub resolve_virtual_path_lem :
    (fs : Filesystem) (virtual_path : Text)
    → IsJail fs
    → resolve_virtual_path fs virtual_path ≡ ok (inside fs virtual_path)
unfolding resolve_virtual_path
resolve_virtual_path_lem fs virtual_path jail =
    let trimmed = trim_space virtual_path in
    let found =
      resolved_path fs (trim_prefix (if is_empty trimmed then codes "/" else trimmed) (codes "/"))
        jail in
    ap (λ path. do ensure_inside_root fs path; ok path)
      (found ∙ ap (λ names. absolute (components fs.root ++ names)) (cleaned_components trimmed))
    ∙ rw (inside-accepted fs virtual_path jail) refl

clean-IsJail :
    (path : Text) (permissions : Permissions)
    → is_rooted path ≡ true
    → IsJail (record { root = clean path; permissions = permissions })
clean-IsJail path permissions h = (components path, (components-IsName path h, clean_rooted path h))

created :
    (answer : Result DiskError FileInfo) (made fs : Filesystem)
    → (elim answer [
      | err e ↦ err (disk e)
      | ok info ↦ if not info.is_dir then err root_not_directory else ok made
    ])
      ≡ ok fs
    → made ≡ fs
created (err e) made fs p = absurd (cc)
created (ok info) made fs p = ground arith

-- From an absolute working directory, a file system that `Create` gives is a jail.
pub create-IsJail :
    (working_directory : Text) (stat : Text → Result DiskError FileInfo) (root : Text)
    (permissions : Permissions) (fs : Filesystem)
    → is_rooted working_directory ≡ true
    → create working_directory stat root permissions ≡ ok fs
    → IsJail fs
unfolding create
create-IsJail working_directory stat root permissions fs h p =
    subst IsJail
      (created (stat (abs working_directory root))
        (record { root = clean (abs working_directory root); permissions = permissions }) fs p)
      (clean-IsJail (abs working_directory root) permissions (abs_rooted working_directory root h))
