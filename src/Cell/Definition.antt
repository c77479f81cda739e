-- ===== src/Cell/Definition.antt =====
-- internal/cell/storage.go and update.go: cells are created, redefined and deleted.
-- The parser of ids, the converter of combs, the fresh id, the time and what the disk answers are
-- parameters and arguments; `is_running` is what the runtime answers.
pub mod Create
pub mod Update
use hive_worker.Base.{
  Text, Bool, true, false, not, Option, none, some, List, [], ◌∷◌, Dict, lookup, erase, contains,
  remove, text_eq, if◌then◌else◌, Result, ok, err, ◌>>=◌, ◌>>◌, fail_if,
}
use hive_worker.Go.Text.{codes, is_empty, trim_space}
use hive_worker.Go.Int.{pos, leb_ℤ}
use hive_worker.Go.Json.{Fields}
use hive_worker.Go.Path.{join_paths}
use hive_worker.Comb
use hive_worker.Comb.{Comb}
use hive_worker.Allocation.{Allocation, replace_reservations}
use hive_worker.Cell.{Cell, Limits, Manager, Error, cell_not_found, disk_failure, refused, no_lock}
use hive_worker.Cell.Console.{put_cell}
use hive_worker.Cell.Request.{
  CreateCellRequest, UpdateCellDefinitionRequest, lacks_address, trim_address, merge,
  trim_create_request, trim_update_request, normalise_additional_allocations, cell_allocations,
}
use hive_worker.Cell.Storage.{
  World, Saving, save, config_name, release_cell_allocations, reserve_cell_allocations,
}

-- The answer of `os.Stat`.
pub data Stat : Type 0 where
  present : Stat
  missing : Stat
  unknown : Stat

-- What `Create` is given by the id generator, the clock and the disk.
pub record Surroundings (Bytes : Type 0) : Type 0 where
  pub fresh_id : Text
  pub now : Text
  pub stat : Text → Stat
  pub mkdir_fails : Bool
  pub dir_stays : Bool
  pub saving : Saving Bytes

abbrev pub is_none {ℓ} : {A : Type ℓ} → Option A → Bool
is_none none = true
is_none (some _) = false

-- An error of another package, with its message.
abbrev from_text {ℓ} : {A : Type ℓ} → Result Text A → Result Error A
from_text (ok a) = ok a
from_text (err message) = err (refused message)

unfoldable pub delete :
    {Bytes : Type 0}
    → (Text → Bool)
    → Text
    → Bool
    → Bool
    → World Bytes
    → World Bytes × Result Error (Unit {0})
delete is_running id config_stays dir_stays w = elim (lookup id w.manager.cells) [
  | none ↦ (w, err cell_not_found)
  | some cell ↦ if is_running id then (w, err (refused (codes "cell must be stopped first"))) else (
    record {
      manager = record (release_cell_allocations cell w.manager) {
        cells = erase id w.manager.cells;
      };
      configs = if config_stays then w.configs else erase (config_name id) w.configs;
      directories = if dir_stays then w.directories else remove cell.dir w.directories;
    },
    if dir_stays then err disk_failure else ok tt,
  )
]

-- A limit of memory that is not positive becomes a gibibyte.
abbrev default_memory : Limits → Limits
default_memory limits =
    if leb_ℤ limits.memory_mb (pos 0) then record limits { memory_mb = pos 1024 } else limits

abbrev parsed_id : Option Text → Result Error Text
parsed_id none = err (refused (codes "invalid cell id"))
parsed_id (some id) = ok id

abbrev pub check_directory : Stat → Result Error (Unit {0})
check_directory present = err (refused (codes "cell directory already exists"))
check_directory missing = ok tt
check_directory unknown = err disk_failure

-- A cell is refused if its id or its directory is taken.
abbrev pub place : {Bytes : Type 0} → Surroundings Bytes → Manager → Cell → Result Error Cell
place s m cell = do
  fail_if (not (is_none (lookup cell.id m.cells))) (refused (codes "cell already exists"))
  check_directory (s.stat cell.dir)
  ok cell

module _ (parse_id : Text → Option Text) (convert : Fields → Result Text Comb) where
  unfoldable pub resolve_comb : CreateCellRequest → Comb.Manager → Result Error Comb
  resolve_comb r combs = elim r.comb_data [
    | some fields ↦ from_text (Comb.from_map convert fields)
    | none ↦ from_text (Comb.require r.comb combs)
  ]

  abbrev chosen_id : Text → Text → Result Error Text
  chosen_id requested fresh =
      if is_empty requested then ok fresh else parsed_id (parse_id requested)

  -- The cell that `Create` goes on to store, from a trimmed request, or its refusal.
  unfoldable pub prepare :
      {Bytes : Type 0}
      → CreateCellRequest
      → Comb.Manager
      → Surroundings Bytes
      → Manager
      → Result Error Cell
  unfolding resolve_comb
  prepare r combs s m = do
    fail_if (is_empty r.name) (refused (codes "name is required"))
    fail_if (is_empty r.comb) (refused (codes "comb is required"))
    comb ← resolve_comb r combs
    let primary = trim_address r.allocation
    fail_if (lacks_address primary) (refused (codes "allocation is required"))
    additional ← normalise_additional_allocations primary r.additional_allocations
    id ← chosen_id r.id s.fresh_id
    place s m (record {
      id = id;
      name = r.name;
      dir = join_paths m.instances_dir id;
      created_at = s.now;
      status = codes "offline";
      comb = comb.id;
      comb_data = r.comb_data;
      variables = merge (merge [] comb.variables) r.variables;
      allocation = primary;
      additional_allocations = additional;
      limits = default_memory r.limits;
      feature_limits = r.feature_limits;
      docker = r.docker;
      startup = r.startup;
      console = [];
      subscribers = [];
      lock = no_lock;
    })

-- The cell as the request defines it.
abbrev pub redefine : UpdateCellDefinitionRequest → List Allocation → Cell → Cell
redefine r additional cell = record cell {
  name = r.name;
  comb = r.comb;
  comb_data = r.comb_data;
  variables = r.variables;
  allocation = r.allocation;
  additional_allocations = additional;
  limits = r.limits;
  feature_limits = r.feature_limits;
  docker = r.docker;
  startup = r.startup;
}

-- The checks of a trimmed request that need no cell.
unfoldable pub check_update : Text → UpdateCellDefinitionRequest → Result Error (List Allocation)
check_update id r = do
  fail_if (is_empty id) (refused (codes "cell id is required"))
  fail_if (is_empty r.name) (refused (codes "cell name is required"))
  fail_if (is_empty r.comb) (refused (codes "comb is required"))
  fail_if (is_none r.comb_data) (refused (codes "comb data is required"))
  fail_if (lacks_address r.allocation) (refused (codes "allocation is required"))
  normalise_additional_allocations r.allocation r.additional_allocations

module _ {Bytes : Type 0} (marshal : Cell → Bytes) where
  -- `RemoveAll` of the new directory may fail, and its error is dropped.
  abbrev pub finish_create :
      Cell
      → Bool
      → World Bytes
      → Dict Text Bytes × Result Error (Unit {0})
      → World Bytes × Result Error Cell
  finish_create cell dir_stays w (configs, ok _) = (
    record {
      manager = put_cell cell.id cell w.manager;
      configs = configs;
      directories = cell.dir ∷ w.directories;
    },
    ok cell,
  )
  finish_create cell dir_stays w (configs, err e) = (
    record {
      manager = release_cell_allocations cell w.manager;
      configs = configs;
      directories = if dir_stays then cell.dir ∷ w.directories else w.directories;
    },
    err e,
  )

  abbrev pub store_new :
      Surroundings Bytes → World Bytes → Result Error Cell → World Bytes × Result Error Cell
  store_new s w (err e) = (w, err e)
  store_new s w (ok cell) =
      if s.mkdir_fails
      then (record w { manager = release_cell_allocations cell w.manager }, err disk_failure)
      else finish_create cell s.dir_stays w (save marshal cell s.saving w.configs)

  unfoldable pub create :
      (Text → Option Text)
      → (Fields → Result Text Comb)
      → CreateCellRequest
      → Comb.Manager
      → Surroundings Bytes
      → World Bytes
      → World Bytes × Result Error Cell
  create parse_id convert r combs s w =
      store_new s w (prepare parse_id convert (trim_create_request r) combs s w.manager)

  abbrev finish_update :
      Cell
      → List Allocation
      → World Bytes
      → Dict Text Bytes × Result Error (Unit {0})
      → World Bytes × Result Error Cell
  finish_update cell old_allocations w (configs, ok _) = (record w { configs = configs }, ok cell)
  finish_update cell old_allocations w (configs, err e) = (
    record w {
      manager = record w.manager {
        alloc_manager =
            replace_reservations (cell_allocations cell) old_allocations w.manager.alloc_manager;
      };
      configs = configs;
    },
    err e,
  )

  -- A failed save leaves the new definition in memory and takes the reservations back.
  abbrev replace_definition :
      Text → Cell → Cell → Saving Bytes → World Bytes → World Bytes × Result Error Cell
  replace_definition id before after saving w =
      let changed = record w {
        manager = record (put_cell id after w.manager) {
          alloc_manager =
              replace_reservations (cell_allocations before) (cell_allocations after)
                w.manager.alloc_manager;
        };
      } in
      finish_update after (cell_allocations before) changed (save marshal after saving w.configs)

  unfoldable pub update_definition :
      (Text → Bool)
      → Text
      → UpdateCellDefinitionRequest
      → Saving Bytes
      → World Bytes
      → World Bytes × Result Error Cell
  update_definition is_running text request saving w =
      let id = trim_space text in
      let r = trim_update_request request in
      elim (check_update id r) [
        | err e ↦ (w, err e)
        | ok additional ↦ elim (lookup id w.manager.cells) [
          | none ↦ (w, err cell_not_found)
          | some cell ↦
              if is_running id
              then (w, err (refused (codes "cell must be stopped before changing its definition")))
              else replace_definition id cell (redefine r additional cell) saving w
        ]
      ]
