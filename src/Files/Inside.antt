-- ===== src/Files/Inside.antt =====
-- A path is accepted exactly if it lies in the directory.
use hive_worker.Base.{
  Text, ◌≡◌, ◌↔◌, refl, sym, subst, Bool, true, false, text_eq, Result, ok, err, if◌then◌else◌,
  arith,
}
use hive_worker.Go.Path.{is_rooted, components, join_paths, abs, rel, is_outside}
use hive_worker.Go.Path.Components.{is_rooted-join}
use hive_worker.Go.Path.Abs.{abs_rooted, abs-join}
use hive_worker.Go.Path.Inside.{Extends, is_outside-rel}
use hive_worker.Files.{Error, invalid_path, clean_path, safe_path, ensure_path_within_base}

guarded_ok :
    (b : Bool) (e : Error) (made a : Text)
    → (if b then err e else ok made) ≡ ok a
    → (b ≡ false) × (a ≡ made)
guarded_ok true e made a h = absurd (cc)
guarded_ok false e made a h = (refl, cc)

ok_guarded :
    (b : Bool) (e : Error) (made a : Text)
    → b ≡ false
    → a ≡ made
    → (if b then err e else ok made) ≡ ok a
ok_guarded b e made a p q = ground arith

guarded_tt_ok :
    (b : Bool) (e : Error)
    → ◌≡◌ {A = Result Error (Unit {0})} (if b then err e else ok tt) (ok tt)
    → b ≡ false
guarded_tt_ok true e h = absurd (cc)
guarded_tt_ok false e h = refl

module _ (working_directory base : Text) where
  safe_path_run :
      (requested : Text)
      → is_rooted working_directory ≡ true
      → safe_path working_directory base requested ≡ (
          let abs_base = abs working_directory base in
          let full = join_paths abs_base (clean_path requested) in
          if is_outside (rel abs_base full) then err invalid_path else ok full)
  unfolding safe_path
  safe_path_run requested h =
      rw
        (abs-join working_directory (abs working_directory base) (clean_path requested)
          (abs_rooted working_directory base h))
        refl

  -- From an absolute working directory, SafePath gives a path exactly if it is the cleaned request
  -- joined to the directory and its components begin with the directory's.
  pub safe_path_iff :
      (requested path : Text)
      → is_rooted working_directory ≡ true
      → (safe_path working_directory base requested ≡ ok path) ↔ (
          (path ≡ join_paths (abs working_directory base) (clean_path requested))
          × Extends (components path) (components (abs working_directory base)))
  safe_path_iff requested path h =
      let rooted = abs_rooted working_directory base h in
      let abs_base = abs working_directory base in
      let full = join_paths abs_base (clean_path requested) in
      let inside =
        is_outside-rel abs_base full (is_rooted-join abs_base (clean_path requested) rooted) in
      rw (safe_path_run requested h) (
        λ p.
            let q = guarded_ok _ _ _ _ p in
            (
              q.1,
              subst (λ path. Extends (components path) (components abs_base)) (sym q.1)
                  (inside.0 q.0),
            ),
        λ p.
            ok_guarded _ _ _ _
              (inside.1 (subst (λ path. Extends (components path) (components abs_base)) p.0 p.1))
              p.0,
      )

  -- From an absolute working directory, ensurePathWithinBase accepts a target exactly if the
  -- components of its absolute path begin with those of the base's absolute path.
  pub ensure_path_within_base_iff :
      (target : Text)
      → is_rooted working_directory ≡ true
      → (ensure_path_within_base working_directory base target ≡ ok tt)
        ↔ Extends
            (components (abs working_directory target))
            (components (abs working_directory base))
  unfolding ensure_path_within_base
  ensure_path_within_base_iff target h =
      let inside =
        is_outside-rel (abs working_directory base) (abs working_directory target)
          (abs_rooted working_directory target h) in
      (λ p. inside.0 (guarded_tt_ok _ _ p), λ p. rw (inside.1 p) refl)
