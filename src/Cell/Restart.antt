-- ===== src/Cell/Restart.antt =====
-- internal/cell: a worker that stops after any sequence of requests finds its cells again.
pub mod Files
pub mod Recovery
use hive_worker.Base.{
  Text, ◌≡◌, refl, sym, ap, subst, ◌∙◌, Bool, true, false, Option, none, some, List, [], ◌∷◌, Dict,
  lookup, insert, text_eq, Result, ok, err, Result-cases, Option-cases, Bool-cases, inl, inr,
  if◌then◌else◌,
}
use hive_worker.Go.Text.{trim_space}
use hive_worker.Go.Json.{Fields}
use hive_worker.Comb
use hive_worker.Comb.{Comb}
use hive_worker.Cell.{Cell, CellLock, Manager, no_lock}
use hive_worker.Cell.Request.{
  CreateCellRequest, UpdateCellDefinitionRequest, trim_create_request, trim_update_request,
}
use hive_worker.Cell.Lock.{lock_cell, unlock_cell, default_lock}
use hive_worker.Cell.Storage.{World, written, save, config_name, release_cell_allocations}
use hive_worker.Cell.Definition.{
  Surroundings, prepare, create, delete, update_definition, check_update, redefine,
}
use hive_worker.Cell.Sync.{
  Mirrors, Agrees, InSync, durable, insert-Mirrors, insert_same-Mirrors, erase-Mirrors,
}

-- A request, with what surrounds it. `is_running` is what the runtime answers at the time.
pub data Request (Bytes : Type 0) : Type 0 where
  created : CreateCellRequest → Comb.Manager → Surroundings Bytes → Request Bytes
  redefined : (Text → Bool) → Text → UpdateCellDefinitionRequest → Request Bytes
  deleted : (Text → Bool) → Text → Bool → Request Bytes
  locked : Text → Text → Text → Text → Bool → Request Bytes
  unlocked : Text → Bool → Request Bytes

module _ {Bytes : Type 0} (marshal : Cell → Bytes) (parse_id : Text → Option Text)
    (convert : Fields → Result Text Comb) where
  -- A request whose writes of the cell's own file succeed, other calls of the disk as they may.
  unfoldable pub serve : Request Bytes → World Bytes → World Bytes
  serve (created r combs s) w =
      (create marshal parse_id convert r combs (record s { saving = written }) w).0
  serve (redefined is_running id r) w = (update_definition marshal is_running id r written w).0
  serve (deleted is_running id dir_stays) w = (delete is_running id false dir_stays w).0
  serve (locked id lock_type reason message fails) w = record w {
    manager = (lock_cell id lock_type reason message fails w.manager).0;
  }
  serve (unlocked id fails) w = record w { manager = (unlock_cell id fails w.manager).0 }

  unfoldable pub serve_all : List (Request Bytes) → World Bytes → World Bytes
  serve_all [] w = w
  serve_all (r ∷ rest) w = serve_all rest (serve r w)

  stored_id :
      (w : World Bytes)
      → InSync marshal w
      → (id : Text) (cell : Cell) → lookup id w.manager.cells ≡ some cell
      → cell.id ≡ id
  stored_id w sync id cell found = (sync.stored id cell found).2.3

  -- A cell is put under its id, and written to the file named after it.
  rewritten-InSync :
      (id : Text) (after : Cell) (w : World Bytes)
      → InSync marshal w
      → after.id ≡ id
      → Mirrors
          (Agrees marshal)
          (insert id after w.manager.cells)
          (insert (config_name after.id) (marshal after) w.configs)
  rewritten-InSync id after w sync e =
      subst
        (λ k.
          Mirrors (Agrees marshal) (insert id after w.manager.cells)
            (insert (config_name k) (marshal after) w.configs))
        (sym e)
        (insert-Mirrors (Agrees marshal) w.manager.cells w.configs sync id after (marshal after)
          (after, refl, refl, e))

  create-InSync :
      (r : CreateCellRequest) (combs : Comb.Manager) (s : Surroundings Bytes) (w : World Bytes)
      → InSync marshal w
      → InSync marshal (create marshal parse_id convert r combs (record s { saving = written }) w).0
  unfolding create save release_cell_allocations
  create-InSync r combs s w sync =
      elim (Result-cases (
        prepare parse_id convert (trim_create_request r) combs (record s { saving = written })
          w.manager)) [
            | inr (e, failed) ↦ rw failed sync
            | inl (cell, made) ↦ rw made (elim (Bool-cases s.mkdir_fails) [
              | inl fails ↦ rw fails sync
              | inr works ↦ rw works (
                  insert-Mirrors (Agrees marshal) w.manager.cells w.configs sync cell.id cell
                    (marshal cell) (cell, refl, refl, refl))
            ])
          ]

  delete-InSync :
      (is_running : Text → Bool) (id : Text) (dir_stays : Bool) (w : World Bytes)
      → InSync marshal w
      → InSync marshal (delete is_running id false dir_stays w).0
  unfolding delete release_cell_allocations
  delete-InSync is_running id dir_stays w sync = elim (Option-cases (lookup id w.manager.cells)) [
    | inl absent ↦ rw (absent, delete) sync
    | inr (cell, found) ↦
        rw (found, delete)
          (elim (Bool-cases (is_running id)) [
            | inl running ↦ rw running sync
            | inr offline ↦
                rw offline (erase-Mirrors (Agrees marshal) w.manager.cells w.configs sync id)
          ])
  ]

  update_definition-InSync :
      (is_running : Text → Bool) (id : Text) (r : UpdateCellDefinitionRequest) (w : World Bytes)
      → InSync marshal w
      → InSync marshal (update_definition marshal is_running id r written w).0
  unfolding update_definition save
  update_definition-InSync is_running id r w sync =
      elim (Result-cases (check_update (trim_space id) (trim_update_request r))) [
        | inr (e, failed) ↦ rw (failed, update_definition) sync
        | inl (additional, checked) ↦
            rw (checked, update_definition)
              (elim (Option-cases (lookup (trim_space id) w.manager.cells)) [
                | inl absent ↦ rw absent sync
                | inr (cell, found) ↦ rw found (elim (Bool-cases (is_running (trim_space id))) [
                  | inl running ↦ rw running sync
                  | inr offline ↦ rw offline (
                      rewritten-InSync (trim_space id)
                        (redefine (trim_update_request r) additional cell) w sync
                        (stored_id w sync (trim_space id) cell found))
                ])
              ])
      ]

  -- Only the lock of a cell is another one.
  relock-InSync :
      (id : Text) (cell : Cell) (lock : CellLock) (w : World Bytes)
      → InSync marshal w
      → lookup id w.manager.cells ≡ some cell
      → Mirrors (Agrees marshal) (insert id (record cell { lock = lock }) w.manager.cells) w.configs
  relock-InSync id cell lock w sync found =
      insert_same-Mirrors (Agrees marshal) w.manager.cells w.configs sync id cell
        (record cell { lock = lock }) found (λ text agrees. agrees)

  lock_cell-InSync :
      (id lock_type reason message : Text) (fails : Bool) (w : World Bytes)
      → InSync marshal w
      → InSync marshal
          (record w { manager = (lock_cell id lock_type reason message fails w.manager).0 })
  unfolding lock_cell
  lock_cell-InSync id lock_type reason message fails w sync =
      elim (Option-cases (lookup id w.manager.cells)) [
        | inl absent ↦ rw (absent, lock_cell) sync
        | inr (cell, found) ↦
            rw (found, lock_cell)
              (relock-InSync id cell (default_lock lock_type reason message) w sync found)
      ]

  unlock_cell-InSync :
      (id : Text) (fails : Bool) (w : World Bytes)
      → InSync marshal w
      → InSync marshal (record w { manager = (unlock_cell id fails w.manager).0 })
  unfolding unlock_cell
  unlock_cell-InSync id fails w sync = elim (Option-cases (lookup id w.manager.cells)) [
    | inl absent ↦ rw (absent, unlock_cell) sync
    | inr (cell, found) ↦ rw (found, unlock_cell) (relock-InSync id cell no_lock w sync found)
  ]

  -- Each request keeps the cells in memory and those on the disk the same.
  pub serve-InSync :
      (r : Request Bytes) (w : World Bytes) → InSync marshal w → InSync marshal (serve r w)
  unfolding serve
  serve-InSync (created r combs s) w sync = create-InSync r combs s w sync
  serve-InSync (redefined is_running id r) w sync = update_definition-InSync is_running id r w sync
  serve-InSync (deleted is_running id dir_stays) w sync =
      delete-InSync is_running id dir_stays w sync
  serve-InSync (locked id lock_type reason message fails) w sync =
      lock_cell-InSync id lock_type reason message fails w sync
  serve-InSync (unlocked id fails) w sync = unlock_cell-InSync id fails w sync

  pub serve_all-InSync :
      (rs : List (Request Bytes)) (w : World Bytes)
      → InSync marshal w
      → InSync marshal (serve_all rs w)
  unfolding serve_all
  serve_all-InSync [] w sync = sync
  serve_all-InSync (r ∷ rest) w sync = serve_all-InSync rest (serve r w) (serve-InSync r w sync)
