-- ===== src/Backup/Mount/Parents.antt =====
-- internal/backup/mount_service.go: the search for links above what is restored.
use hive_worker.Base.{
  err, Result, Bool-cases, ◌==◌, text_eq, ◌∙◌, ℕ, zero, suc, ◌+◌, ◌<◌, Text, ◌≡◌, ◌≢◌, ◌↔◌, sym, ap,
  subst, ◌∙◌, some, List, [], ◌∷◌, ◌++◌, All, All-append, text_eq, ok, length, arith, Result-cases,
  inl, inr, length-append,
}
use hive_worker.Go.Path.{dir, absolute, components}
use hive_worker.Go.Path.Components.{IsName, components-absolute}
use hive_worker.Go.Path.Parent.{dir-absolute}
use hive_worker.Backup.Mount.{Error, Stat}
use hive_worker.Backup.Mount.Restore.{check_parents, is_plain}

-- The components of a path below the root, by the names that follow the root's, the last one first.
abbrev pub below : List Text → List Text → List Text
below root [] = root
below root (name ∷ names) = below root names ++ (name ∷ [])

length-below : (root names : List Text) → length (below root names) ≡ length names + length root
length-below root [] = omega arith
length-below root (name ∷ names) =
    omega (arith, length-append (below root names) (name ∷ []), length-below root names)

below-IsName :
    (root names : List Text) → All IsName root → All IsName names → All IsName (below root names)
below-IsName root [] hr hn = hr
below-IsName root (name ∷ names) hr hn =
    All-append IsName (below root names) (name ∷ []) (below-IsName root names hr hn.1) (hn.0, tt)

-- One round of the search, at a path that is not the root and has a directory above it.
check_parents_step :
    (fuel : ℕ) (root current : Text) (disk : Text → Stat)
    → current ≢ root
    → dir current ≢ current
    → (check_parents (suc fuel) root disk current ≡ some (ok tt)) ↔ (
        (is_plain (disk current) ≡ ok tt)
        × (check_parents fuel root disk (dir current) ≡ some (ok tt)))
unfolding check_parents
check_parents_step fuel root current disk not_root not_top =
    elim (Result-cases (is_plain (disk current))) [
      | inr (e, bad) ↦ (λ p. absurd (ground arith), λ p. absurd (ground arith))
      | inl (_, good) ↦ (λ p. (ground arith, ground arith), λ p. ground arith)
    ]

-- Wherever one round goes on to, it comes to a result if the search from the directory above does.
check_parents_more :
    (fuel : ℕ) (root current : Text) (disk : Text → Stat) (later : Result Error (Unit {0}))
    → check_parents fuel root disk (dir current) ≡ some later
    → (result : Result Error (Unit {0})) × (check_parents (suc fuel) root disk current
        ≡ some result)
unfolding check_parents
check_parents_more fuel root current disk later found =
    elim (Result-cases (is_plain (disk current))) [
      | inr (e, bad) ↦ (err e, ground arith)
      | inl (_, good) ↦ elim (Bool-cases (current == root)) [
        | inl there ↦ (ok tt, ground arith)
        | inr below ↦ elim (Bool-cases (dir current == current)) [
          | inl top ↦ (err Error.unsafe_archive_path, ground arith)
          | inr above ↦ (later, ground arith)
        ]
      ]
    ]

module _ (disk : Text → Stat) (root : List Text) (names_root : All IsName root) where
  -- The root and each directory from it down to the path is there and is no link.
  abbrev pub IsClear : List Text → Type 0
  IsClear [] = is_plain (disk (absolute root)) ≡ ok tt
  IsClear (name ∷ names) =
      (is_plain (disk (absolute (below root (name ∷ names)))) ≡ ok tt) × IsClear names

  below-ne :
      (a b : List Text)
      → All IsName a
      → All IsName b
      → length a ≢ length b
      → absolute a ≢ absolute b
  below-ne a b ha hb ne e =
      ne (ap length (sym (components-absolute a ha) ∙ (ap components e ∙ components-absolute b hb)))

  check_parents-IsClear :
      (fuel : ℕ) (names : List Text)
      → All IsName names
      → length names < fuel
      → (check_parents fuel (absolute root) disk (absolute (below root names)) ≡ some (ok tt))
        ↔ IsClear names
  unfolding check_parents
  check_parents-IsClear zero names hn h = absurd (omega arith)
  check_parents-IsClear (suc fuel) [] hn h = (λ p. ground arith, λ p. ground arith)
  check_parents-IsClear (suc fuel) (name ∷ names) hn h =
      let whole = below root (name ∷ names) in
      let up : dir (absolute whole) ≡ absolute (below root names) =
        dir-absolute (below root names) name (below-IsName root names names_root hn.1) hn.0 in
      let not_root : absolute whole ≢ absolute root =
        below-ne whole root (below-IsName root (name ∷ names) names_root hn) names_root
          (λ e. absurd (omega (arith, length-below root (name ∷ names), e))) in
      let not_top : absolute (below root names) ≢ absolute whole =
        below-ne (below root names) whole (below-IsName root names names_root hn.1)
          (below-IsName root (name ∷ names) names_root hn)
          (λ e.
            absurd (omega (arith, length-below root (name ∷ names), length-below root names, e))) in
      let rest = check_parents-IsClear fuel names hn.1 (omega arith) in
      let step =
        check_parents_step fuel (absolute root) (absolute whole) disk not_root
          (λ e. absurd (not_top (sym up ∙ e))) in
      (
        λ p. ((step.0 p).0, rest.0 (at_parent up (step.0 p).1)),
        λ p. step.1 (p.0, from_parent up (rest.1 p.1)),
      )
    where
      at_parent :
          {a b : Text}
          → a ≡ b
          → check_parents fuel (absolute root) disk a ≡ some (ok tt)
          → check_parents fuel (absolute root) disk b ≡ some (ok tt)
      at_parent e h = subst (λ c. check_parents fuel (absolute root) disk c ≡ some (ok tt)) e h

      from_parent :
          {a b : Text}
          → a ≡ b
          → check_parents fuel (absolute root) disk b ≡ some (ok tt)
          → check_parents fuel (absolute root) disk a ≡ some (ok tt)
      from_parent e h =
          subst (λ c. check_parents fuel (absolute root) disk c ≡ some (ok tt)) (sym e) h

  -- Whatever the disk answers, the search comes to a result.
  check_parents_ends :
      (fuel : ℕ) (names : List Text)
      → All IsName names
      → length names < fuel
      → (result : Result Error (Unit {0})) × (check_parents fuel
            (absolute root)
            disk
            (absolute (below root names))
          ≡ some result)
  unfolding check_parents
  check_parents_ends zero names hn h = absurd (omega arith)
  check_parents_ends (suc fuel) [] hn h = elim (Result-cases (is_plain (disk (absolute root)))) [
    | inr (e, bad) ↦ (err e, ground arith)
    | inl (_, good) ↦ (ok tt, ground arith)
  ]
  check_parents_ends (suc fuel) (name ∷ names) hn h =
      let whole = below root (name ∷ names) in
      let up : dir (absolute whole) ≡ absolute (below root names) =
        dir-absolute (below root names) name (below-IsName root names names_root hn.1) hn.0 in
      let (result, found) = check_parents_ends fuel names hn.1 (omega arith) in
      check_parents_more fuel (absolute root) (absolute whole) disk result
        (ap (check_parents fuel (absolute root) disk) up ∙ found)

  -- From a path so many names below the root, the search for links ends, with a result, after one
  -- round more than there are names; it finds nothing exactly if the root and each directory down
  -- to the path is there and is no link.
  pub check_parents_iff :
      (fuel : ℕ) (names : List Text)
      → All IsName names
      → length names < fuel
      → (result : Result Error (Unit {0})) × (check_parents fuel
            (absolute root)
            disk
            (absolute (below root names))
          ≡ some result)
        × ((result ≡ ok tt) ↔ IsClear names)
  check_parents_iff fuel names hn h =
      let (result, found) = check_parents_ends fuel names hn h in
      let clear = check_parents-IsClear fuel names hn h in
      (
        result,
        found,
        ((λ e. clear.0 (found ∙ ap some e)), λ c. same_result (sym found ∙ clear.1 c)),
      )
    where
      same_result : {r : Result Error (Unit {0})} → some r ≡ some (ok tt) → r ≡ ok tt
      same_result e = ground arith
