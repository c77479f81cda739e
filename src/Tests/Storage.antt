-- ===== src/Tests/Storage.antt =====
-- internal/cell: cells that are created, redefined, stored and loaded.
use hive_worker.Base.{
  ap, Text, ◌≡◌, refl, true, false, Option, none, some, [], ◌∷◌, lookup, insert, text_eq, nat_eq,
  ℕ_discrete, Result, ok, arith, subst,
}
use mathlib.Core.Option
use hive_worker.Go.Text.{codes, trim_space, has_suffix}
use hive_worker.Go.Int.{pos}
use hive_worker.Go.Path.{join_paths, clean}
use hive_worker.Go.Decimal.{itoa}
use hive_worker.Go.Json.{Fields, field}
use hive_worker.Comb
use hive_worker.Comb.{Comb}
use hive_worker.Allocation.{is_reserved, valid_allocation, normalise_allocation}
use hive_worker.Cell.{Cell}
use hive_worker.Cell.Request.{
  CreateCellRequest, UpdateCellDefinitionRequest, trim_create_request,
  normalise_additional_allocations, merge, cell_allocations,
}
use hive_worker.Cell.Storage.{World, written, untouched, save, reserve_cell_allocations}
use hive_worker.Cell.Definition.{
  Surroundings, missing, prepare, create, update_definition, resolve_comb,
}
use hive_worker.Cell.Sync.{kept, restored}
use hive_worker.Cell.Restart.{created, serve, serve_all}
use hive_worker.Cell.Restart.Files.{Lists}
use hive_worker.Cell.Loading.{Entry, load}
use hive_worker.Cell.Restart.Recovery.{load-serve_all}
use hive_worker.Cell.Loading.Reserved.{is_reserved-load}
use hive_worker.Cell.Definition.Create.{create-ok}
use hive_worker.Cell.Definition.Update.{Outcome, update_definition_lem}
use hive_worker.Cell.Lifecycle.{start_variables}
use hive_worker.Cell.Lifecycle.Variables.{lookup-start_variables}
use hive_worker.Tests.Cell.{lobby, manager}

abbrev pub paper : Comb
paper = record {
  id = codes "p";
  name = codes "Paper";
  game = codes "g";
  startup = codes "run";
  variables = [];
  install = [];
  image = codes "i";
  working_dir = [];
  entrypoint = [];
  environment = [];
}

abbrev combs : Comb.Manager
combs = record { combs = (codes "p", paper) ∷ []; dir = codes "/d" }

abbrev request : CreateCellRequest
request = record {
  id = [];
  name = codes "N";
  comb = codes "p";
  comb_data = none;
  variables = [];
  limits = lobby.limits;
  feature_limits = lobby.feature_limits;
  docker = record { image = [] };
  startup = record { command = [] };
  allocation = record { ip = codes "h"; port = pos 1 };
  additional_allocations = [];
}

-- The bytes of a cell are the cell, in this world.
abbrev surroundings : Surroundings Cell
surroundings = record {
  fresh_id = codes "x";
  now = codes "t";
  stat = λ _. missing;
  mkdir_fails = false;
  dir_stays = false;
  saving = written;
}

abbrev empty_world : World Cell
empty_world = record { manager = record manager { cells = [] }; configs = []; directories = [] }

abbrev parse_id : Text → Option Text
parse_id text = some text

abbrev convert : Fields → Result Text Comb
convert fields = ok paper

abbrev new_cell : Cell
new_cell = record lobby {
  id = codes "x";
  name = codes "N";
  dir = codes "/srv/x";
  created_at = codes "t";
  comb = codes "p";
  allocation = record { ip = codes "h"; port = pos 1 };
  console = [];
}

-- An encoder that leaves out the data of a comb where it is empty.
abbrev omitted : Option Fields → Option Fields
omitted none = none
omitted (some Fields.end_fields) = none
omitted (some (field name value rest)) = some (field name value rest)

abbrev marshal : Cell → Cell
marshal cell = record cell { comb_data = omitted cell.comb_data }

kept-omitted : (o : Option Fields) → kept (λ f. f) (omitted o) ≡ kept (λ f. f) o
kept-omitted none = refl
kept-omitted (some Fields.end_fields) = refl
kept-omitted (some (field name value rest)) = refl

restored-marshal : (c : Cell) → restored (λ f. f) (marshal c) ≡ restored (λ f. f) c
restored-marshal c =
    ap (λ kept_data. record (restored (λ f. f) c) { comb_data = kept_data })
      (kept-omitted c.comb_data)

abbrev after : World Cell
after = serve_all marshal parse_id convert (created request combs surroundings ∷ []) empty_world

created_new :
    (create (λ (c : Cell). c) parse_id convert request combs surroundings empty_world).1
    ≡ ok new_cell
unfolding create prepare resolve_comb trim_create_request trim_space
    normalise_additional_allocations merge lookup insert text_eq save join_paths clean ℕ_discrete
    Comb.require Comb.get
created_new = refl

after_configs : after.configs ≡ (codes "x.json", new_cell) ∷ []
unfolding serve_all serve create prepare resolve_comb trim_create_request trim_space
    normalise_additional_allocations merge lookup insert text_eq save join_paths clean ℕ_discrete
    Comb.require Comb.get
after_configs = refl

abbrev stored_file : Entry Cell
stored_file = record { name = codes "x.json"; is_dir = false; content = some new_cell }

only_file :
    (name : Text) (c : Cell)
    → lookup name ((codes "x.json", new_cell) ∷ []) ≡ some c
    → name ≡ codes "x.json"
unfolding lookup
only_file name c h = ground arith

lists : Lists (stored_file ∷ []) after.configs
unfolding lookup
lists = record {
  sound = rw after_configs ((new_cell, refl, refl, ground arith), tt);
  complete = λ name c h.
      let same = only_file name c (subst (λ d. lookup name d ≡ some c) after_configs h) in
      ground arith;
}

load-serve_all_example :
    Option.map (restored (λ f. f)) (
      lookup
        (codes "x")
        (load some (λ _. none) (some (stored_file ∷ [])) (record manager { cells = [] })).0.cells)
    ≡ Option.map (restored (λ f. f)) (lookup (codes "x") after.manager.cells)
load-serve_all_example =
    load-serve_all (λ f. f) marshal some (λ _. none) (λ c. (marshal c, refl, restored-marshal c))
      parse_id convert (created request combs surroundings ∷ []) empty_world refl refl
      (stored_file ∷ []) lists (record manager { cells = [] }) refl (codes "x")

is_reserved-load_example :
    is_reserved new_cell.allocation
      (load some
        (λ _. none)
        (some (stored_file ∷ []))
        (record manager { cells = [] })).0.alloc_manager
    ≡ true
unfolding lookup load has_suffix ℕ_discrete insert reserve_cell_allocations text_eq valid_allocation
    normalise_allocation trim_space cell_allocations
is_reserved-load_example =
    is_reserved-load some (λ _. none) (some (stored_file ∷ [])) (record manager { cells = [] }) refl
      (codes "x") new_cell loaded_new [] new_cell.allocation [] refl valid
  where
    loaded_new :
        lookup
          (codes "x")
          (load some (λ _. none) (some (stored_file ∷ [])) (record manager { cells = [] })).0.cells
        ≡ some new_cell
    loaded_new = refl

    valid : valid_allocation (normalise_allocation new_cell.allocation) ≡ true
    valid = refl

create-ok_example :
    (lookup (codes "x") empty_world.manager.cells ≡ none)
    × (new_cell.dir ≡ join_paths (codes "/srv") (codes "x"))
    × (missing ≡ missing)
    × ((create (λ (c : Cell). c) parse_id convert request combs surroundings empty_world).0
        ≡ record {
          manager = record empty_world.manager { cells = insert (codes "x") new_cell [] };
          configs = insert (codes "x.json") new_cell [];
          directories = codes "/srv/x" ∷ [];
        })
create-ok_example =
    create-ok (λ (c : Cell). c) parse_id convert request combs surroundings empty_world new_cell
      created_new

abbrev bad_disk : Surroundings Cell
bad_disk = record surroundings { mkdir_fails = true }

abbrev new_definition : UpdateCellDefinitionRequest
new_definition = record {
  name = codes "M";
  comb = codes "p";
  comb_data = some Fields.end_fields;
  variables = [];
  allocation = record { ip = codes "h"; port = pos 2 };
  additional_allocations = [];
  limits = lobby.limits;
  feature_limits = lobby.feature_limits;
  docker = record { image = [] };
  startup = record { command = [] };
}

update_definition_lem_example :
    Outcome
      (λ (c : Cell). c)
      (λ _. false)
      (codes "a")
      new_definition
      untouched
      (record { manager = manager; configs = []; directories = [] })
      (update_definition
        (λ (c : Cell). c)
        (λ _. false)
        (codes "a")
        new_definition
        untouched
        (record { manager = manager; configs = []; directories = [] }))
update_definition_lem_example =
    update_definition_lem (λ (c : Cell). c) (λ _. false) (codes "a") new_definition untouched
      (record { manager = manager; configs = []; directories = [] })

lookup-start_variables_example :
    lookup (codes "allocation.port") (start_variables paper lobby) ≡ some (codes "25565")
unfolding text_eq ℕ_discrete itoa
lookup-start_variables_example = lookup-start_variables paper lobby (codes "allocation.port") tt tt
