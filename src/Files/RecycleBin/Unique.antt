-- ===== src/Files/RecycleBin/Unique.antt =====
-- internal/files/manager.go: what is moved never takes the place of something that is there.
use hive_worker.Base.{
  ℕ, zero, suc, ◌+◌, ◌<◌, Text, ◌≡◌, true, some, ◌++◌, subst, arith, Bool-cases, inl, inr,
}
use hive_worker.Go.Path.{dir, join_paths}
use hive_worker.Go.Path.Names.{ext}
use hive_worker.Files.Operations.{Stat}
use hive_worker.Files.RecycleBin.{is_missing, stamped, numbered, first_missing, unique_recycle_path}

module _ (stat : Text → Stat) (stamp : Text) where
  abbrev pub IsFree : Text → Type 0
  IsFree path = is_missing (stat path) ≡ true

  first_missing-IsFree :
      (fuel : ℕ) (path : Text) (index k : ℕ)
      → IsFree (numbered stamp path (index + k))
      → k < fuel
      → (target : Text) × (first_missing stat stamp fuel path index ≡ some target) × IsFree target
  unfolding first_missing
  first_missing-IsFree zero path index k free h = absurd (omega arith)
  first_missing-IsFree (suc fuel) path index zero free h =
      let here : IsFree (numbered stamp path index) = ground arith in
      (numbered stamp path index, rw here, here)
  first_missing-IsFree (suc fuel) path index (suc k) free h =
      elim (Bool-cases (is_missing (stat (numbered stamp path index)))) [
        | inl here ↦ (numbered stamp path index, rw here, here)
        | inr taken ↦
            let next : index + suc k ≡ index + 1 + k = omega arith in
            rw taken (
              first_missing-IsFree fuel path (index + 1) k
                (subst (λ n. IsFree (numbered stamp path n)) next free) (omega arith))
      ]

  -- If one of the numbered names from 2 on is free, and there are more rounds than names before it,
  -- then uniqueRecyclePath ends, and nothing is at the path that it gives.
  pub unique_recycle_path-IsFree :
      (fuel : ℕ) (path : Text) (k : ℕ)
      → IsFree (numbered stamp path (2 + k))
      → k < fuel
      → (target : Text) × (unique_recycle_path stat stamp fuel path ≡ some target) × IsFree target
  unfolding unique_recycle_path
  unique_recycle_path-IsFree fuel path k free h = elim (Bool-cases (is_missing (stat path))) [
    | inl here ↦ (path, rw here, here)
    | inr taken ↦
        let candidate = join_paths (dir path) (stamped stamp path ++ ext path) in
        elim (Bool-cases (is_missing (stat candidate))) [
          | inl here ↦ (candidate, rw (taken, here), here)
          | inr taken' ↦ rw (taken, taken') (first_missing-IsFree fuel path 2 k free h)
        ]
  ]
