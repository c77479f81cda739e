-- ===== src/Cell/Definition/Create.antt =====
-- internal/cell/storage.go: what `Create` does on every branch.
use hive_worker.Base.{
  ◌∷◌, All, true, ◌↔◌, ◌≢◌, Text, ◌≡◌, Option, none, lookup, insert, text_eq, Result, ok, err,
  Result-cases, inl, inr, ◌⊎◌, arith,
}
use hive_worker.Go.Json.{Fields}
use hive_worker.Go.Path.{join_paths}
use hive_worker.Comb
use hive_worker.Comb.{Comb}
use hive_worker.Allocation
use hive_worker.Allocation.{Allocation, valid_allocation, normalise_allocation, is_reserved}
use hive_worker.Allocation.Keys.{SameAddress}
use hive_worker.Cell.{Cell, Manager, Error}
use hive_worker.Cell.Request.{CreateCellRequest, trim_create_request}
use hive_worker.Cell.Storage.{World, written, save, config_name}
use hive_worker.Cell.Definition.{Surroundings, prepare, create, missing}

module _ (parse_id : Text → Option Text) (convert : Fields → Result Text Comb) where
  -- No cell and no directory is in the way of a cell that is to be created.
  prepare-ok :
      {Bytes : Type 0} (r : CreateCellRequest) (combs : Comb.Manager) (s : Surroundings Bytes)
      (m : Manager) {cell : Cell}
      → prepare parse_id convert r combs s m ≡ ok cell
      → (lookup cell.id m.cells ≡ none)
        × (cell.dir ≡ join_paths m.instances_dir cell.id)
        × (s.stat cell.dir ≡ missing)
  unfolding prepare
  prepare-ok r combs s m h = ground arith

module _ {Bytes : Type 0} (marshal : Cell → Bytes) (parse_id : Text → Option Text)
    (convert : Fields → Result Text Comb) (r : CreateCellRequest) (combs : Comb.Manager)
    (s : Surroundings Bytes) (w : World Bytes) where
  -- Where Create succeeds, no cell had the id and there was no directory of that name below the
  -- instances' directory, which is the new cell's; the cell is put in memory, its encoding under
  -- its name on the disk, and its directory is made; nothing else changes, the reserved addresses
  -- included.
  pub create-ok :
      (cell : Cell)
      → (create marshal parse_id convert r combs s w).1 ≡ ok cell
      → (lookup cell.id w.manager.cells ≡ none)
        × (cell.dir ≡ join_paths w.manager.instances_dir cell.id)
        × (s.stat cell.dir ≡ missing)
        × ((create marshal parse_id convert r combs s w).0 ≡ record {
          manager = record w.manager { cells = insert cell.id cell w.manager.cells };
          configs = insert (config_name cell.id) (marshal cell) w.configs;
          directories = cell.dir ∷ w.directories;
        })
  unfolding create save
  create-ok cell h =
      elim (Result-cases (prepare parse_id convert (trim_create_request r) combs s w.manager)) [
        | inr (e, failed) ↦ absurd (ground arith)
        | inl (made, prepared) ↦
            ground (
              arith,
              prepare-ok parse_id convert (trim_create_request r) combs s w.manager prepared,
            )
      ]

  -- Exactly the addresses of the request are given up: an address is still reserved if it was and is
  -- none of them.
  abbrev pub IsGivenUp : Allocation.Manager → Type 0
  IsGivenUp after =
      (b : Allocation)
      → valid_allocation (normalise_allocation b) ≡ true
      → (is_reserved b after ≡ true) ↔ (
          All (λ a. ¬ SameAddress b a) (r.allocation ∷ r.additional_allocations)
          × (is_reserved b w.manager.alloc_manager ≡ true))

  -- What a failure leaves.
  abbrev pub Fails : World Bytes × Result Error Cell → Type 0
  Fails (after, ok cell) = Unit
  Fails (after, err e) =
      (after.manager.cells ≡ w.manager.cells)
      × ((after ≡ w)
          ⊎ (((s.mkdir_fails ≡ true) ⊎ (s.saving ≢ written))
              × IsGivenUp after.manager.alloc_manager))
