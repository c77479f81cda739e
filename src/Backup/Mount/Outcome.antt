-- ===== src/Backup/Mount/Outcome.antt =====
-- internal/backup/mount_service.go: a mount is there whole or not at all.
use hive_worker.Base.{
  ◌||◌, ℕ, take, Text, ◌≡◌, true, false, Option, List, [], ◌∷◌, ◌++◌, Result, ok, err, ◌⊎◌,
}
use hive_worker.Go.Path.{dir}
use hive_worker.Backup.Mount.{
  Call, mkdir_all, remove_all, move, Error, MountResult, Stat, missing, mounting,
}
use hive_worker.Backup.Mount.Extract.{Archive, MountFailures}

-- The first of the calls that prepare a mount, so many of them.
abbrev pub preparing : Text → ℕ → List Call
preparing path n =
    take n (mkdir_all (dir path) ∷ remove_all (mounting path) ∷ mkdir_all (mounting path) ∷ [])

-- A mount that succeeds makes the three preparing calls first and the move of the unpacked directory
-- to a path where nothing was last. One that fails makes no call; or stops after the first, the
-- second or the third of the preparing calls, which failed; or ends by removing the unpacked
-- directory.
abbrev pub Ends : (Text → Stat) → MountFailures → List Call × Result Error MountResult → Type 0
Ends stat fails (calls, ok r) =
    (between : List Call) × (calls
      ≡ preparing r.path 3 ++ (between ++ (move (mounting r.path) r.path ∷ [])))
    × (stat r.path ≡ missing)
    × ((fails.cell_directory || fails.stale || fails.temporary || fails.rename) ≡ false)
Ends stat fails (calls, err e) =
    (calls ≡ [])
    ⊎ (((path : Text) × (((fails.cell_directory ≡ true) × (calls ≡ preparing path 1))
            ⊎ (((fails.stale ≡ true) × (calls ≡ preparing path 2))
                ⊎ ((fails.temporary ≡ true) × (calls ≡ preparing path 3)))))
        ⊎ ((between : List Call) × (path : Text) × (calls
              ≡ preparing path 3 ++ (between ++ (remove_all (mounting path) ∷ [])))))

module _ (stat : Text → Stat) (archives : Text → Option Archive) (working_directory : Text)
    (fails : MountFailures) where
  -- What follows the preparing calls.
  abbrev Finishes : Text → List Call × Result Error MountResult → Type 0
  Finishes path (calls, ok r) =
      (between : List Call) × (calls ≡ between ++ (move (mounting r.path) r.path ∷ []))
      × (path ≡ r.path)
      × (stat r.path ≡ missing)
      × (fails.rename ≡ false)
  Finishes path (calls, err e) =
      (between : List Call) × (calls ≡ between ++ (remove_all (mounting path) ∷ []))
