-- ===== src/Cell/Lifecycle.antt =====
-- internal/cell/lifecycle.go, template.go and comb_resolver.go: cells are started and stopped.
-- `running` and the results of the runtime are arguments; a panic of the console is none.
pub mod Variables
use hive_worker.Base.{
  Text, Bool, true, false, not, Option, none, some, List, [], ◌∷◌, ◌++◌, Dict, lookup, insert,
  text_eq, if◌then◌else◌, Result, ok, err,
}
use hive_worker.Go.Text.{codes, is_empty, trim_space}
use hive_worker.Go.Text.Replace.{replace_all}
use hive_worker.Go.Int.{ℤ}
use hive_worker.Go.Decimal.{itoa}
use hive_worker.Go.Json.{Fields}
use hive_worker.Comb
use hive_worker.Comb.{Comb}
use hive_worker.Cell.{Cell, Limits, Manager, Error, cell_not_found, refused}
use hive_worker.Cell.Console.{broadcast_by_id}
use hive_worker.Cell.Request.{merge}

-- `RuntimeCell` of internal/runtime/runtime.go
pub record RuntimeCell : Type 0 where
  pub id : Text
  pub command : Text
  pub instance_dir : Text
  pub image : Text
  pub working_dir : Text
  pub environment : Dict Text Text
  pub allocation_ip : Text
  pub allocation_port : ℤ
  pub limits : Limits

-- The loop follows the order of the map.
unfoldable pub render_template : Text → Dict Text Text → Text
render_template output [] = output
render_template output ((key, value) ∷ rest) =
    render_template (replace_all output (codes "{{" ++ (key ++ codes "}}")) value) rest

unfoldable pub resolve_cell_comb :
    (Fields → Result Text Comb) → Cell → Comb.Manager → Result Text Comb
resolve_cell_comb convert cell combs = elim cell.comb_data [
  | some fields ↦ Comb.from_map convert fields
  | none ↦ Comb.require cell.comb combs
]

-- The variables of `Start`: those of the comb, over them the cell's, over them its address.
unfoldable pub start_variables : Comb → Cell → Dict Text Text
start_variables comb cell = insert (codes "allocation.port") (itoa cell.allocation.port) (
    insert (codes "allocation.ip") cell.allocation.ip
      (merge (merge [] comb.variables) cell.variables))

abbrev pub first_non_empty : Text → Text → Text
first_non_empty a b = if not (is_empty a) then a else b

-- What `Start` gives to the runtime.
unfoldable pub runtime_cell : Comb → Cell → RuntimeCell
unfolding start_variables
runtime_cell comb cell = record {
  id = cell.id;
  command =
      render_template (first_non_empty cell.startup.command comb.startup)
        (start_variables comb cell);
  instance_dir = cell.dir;
  image = first_non_empty cell.docker.image comb.image;
  working_dir = comb.working_dir;
  environment = comb.environment;
  allocation_ip = cell.allocation.ip;
  allocation_port = cell.allocation.port;
  limits = cell.limits;
}

abbrev announced :
    Option Manager → Result Error (Unit {0}) → Option (Manager × Result Error (Unit {0}))
announced none result = none
announced (some m) result = some (m, result)

-- The cell is announced as started before the runtime is asked.
abbrev launch :
    (RuntimeCell → Result Error (Unit {0}))
    → Text
    → Bool
    → Cell
    → Result Text Comb
    → Manager
    → Option (Manager × Result Error (Unit {0}))
launch runtime_start id running cell (err message) m = some (m, err (refused message))
launch runtime_start id running cell (ok comb) m =
    if running
    then some (m, err (refused (codes "cell already running")))
    else announced (broadcast_by_id id (codes "Cell started.") m)
        (runtime_start (runtime_cell comb cell))

unfoldable pub start :
    (Fields → Result Text Comb)
    → (RuntimeCell → Result Error (Unit {0}))
    → Text
    → Comb.Manager
    → Bool
    → Manager
    → Option (Manager × Result Error (Unit {0}))
start convert runtime_start id combs running m = elim (lookup id m.cells) [
  | none ↦ some (m, err cell_not_found)
  | some cell ↦ launch runtime_start id running cell (resolve_cell_comb convert cell combs) m
]

-- The goroutine of `Stop`, with the answer of the runtime.
unfoldable pub stopping : Text → Result Text (Unit {0}) → Manager → Option Manager
stopping id answer m = elim (broadcast_by_id id (codes "Stopping cell...") m) [
  | none ↦ none
  | some m' ↦ elim answer [
    | ok _ ↦ some m'
    | err message ↦ broadcast_by_id id (codes "Stop failed: " ++ message) m'
  ]
]

-- What `Stop` itself answers; `stopping` follows if it succeeds.
unfoldable pub stop : Text → Manager → Result Error (Unit {0})
stop id m = elim (lookup id m.cells) [ none ↦ err cell_not_found | some _ ↦ ok tt ]

unfoldable pub send_command :
    Text → Text → Result Error (Unit {0}) → Manager → Option (Manager × Result Error (Unit {0}))
send_command id command answer m = elim (lookup id m.cells) [
  | none ↦ some (m, err cell_not_found)
  | some _ ↦ announced (broadcast_by_id id (codes "> " ++ command) m) answer
]

unfoldable pub is_running : (Text → Bool) → Text → Bool
is_running runtime_is_running text =
    let id = trim_space text in if is_empty id then false else runtime_is_running id
