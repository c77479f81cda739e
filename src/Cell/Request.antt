-- ===== src/Cell/Request.antt =====
-- internal/cell: the requests that define a cell, and the addresses in them.
pub mod Addresses
use hive_worker.Base.{
  Text, Bool, ◌||◌, Option, List, [], ◌∷◌, Dict, insert, contains, text_eq, ◌==◌, if◌then◌else◌,
  Result, ok, err, ◌>>=◌,
}
use hive_worker.Go.Text.{codes, is_empty, trim_space}
use hive_worker.Go.Int.{pos, leb_ℤ}
use hive_worker.Go.Json.{Fields}
use hive_worker.Go.Net.{join_host_port}
use hive_worker.Go.Decimal.{itoa}
use hive_worker.Allocation.{Allocation}
use hive_worker.Cell.{Cell, Limits, FeatureLimits, DockerConfig, StartupConfig, Error, refused}

-- `variables` is the empty map where the request has none.
pub record CreateCellRequest : Type 0 where
  pub id : Text
  pub name : Text
  pub comb : Text
  pub comb_data : Option Fields
  pub variables : Dict Text Text
  pub limits : Limits
  pub feature_limits : FeatureLimits
  pub docker : DockerConfig
  pub startup : StartupConfig
  pub allocation : Allocation
  pub additional_allocations : List Allocation

pub record UpdateCellDefinitionRequest : Type 0 where
  pub name : Text
  pub comb : Text
  pub comb_data : Option Fields
  pub variables : Dict Text Text
  pub allocation : Allocation
  pub additional_allocations : List Allocation
  pub limits : Limits
  pub feature_limits : FeatureLimits
  pub docker : DockerConfig
  pub startup : StartupConfig

-- `allocationKey` of storage.go
unfoldable pub address_key : Allocation → Text
address_key a = join_host_port (trim_space a.ip) (itoa a.port)

abbrev pub trim_address : Allocation → Allocation
trim_address a = record a { ip = trim_space a.ip }

-- `IP == "" || Port <= 0`
abbrev pub lacks_address : Allocation → Bool
lacks_address a = is_empty a.ip || leb_ℤ a.port (pos 0)

abbrev prepend : Allocation → Result Error (List Allocation) → Result Error (List Allocation)
prepend item more = more >>= λ items. ok (item ∷ items)

-- The loop of `normaliseAdditionalAllocations`, with the keys that it has seen.
unfoldable pub normalise_additional :
    Text → List Text → List Allocation → Result Error (List Allocation)
normalise_additional primary seen [] = ok []
normalise_additional primary seen (a ∷ rest) =
    let item = trim_address a in
    let key = address_key item in
    let later = prepend item (normalise_additional primary (key ∷ seen) rest) in
    if lacks_address item
    then err (refused (codes "additional allocation is invalid"))
    else if key == primary
    then err (refused (codes "primary allocation cannot also be an additional allocation"))
    else if contains key seen
    then err (refused (codes "duplicate additional allocation"))
    else later

unfoldable pub normalise_additional_allocations :
    Allocation → List Allocation → Result Error (List Allocation)
unfolding normalise_additional
normalise_additional_allocations primary additional =
    normalise_additional (address_key primary) [] additional

-- What the trimming of the fields leaves of a request.
unfoldable pub trim_create_request : CreateCellRequest → CreateCellRequest
trim_create_request r = record r {
  id = trim_space r.id;
  name = trim_space r.name;
  comb = trim_space r.comb;
  docker = record { image = trim_space r.docker.image };
  startup = record { command = trim_space r.startup.command };
}

unfoldable pub trim_update_request : UpdateCellDefinitionRequest → UpdateCellDefinitionRequest
trim_update_request r = record r {
  name = trim_space r.name;
  comb = trim_space r.comb;
  docker = record { image = trim_space r.docker.image };
  startup = record { command = trim_space r.startup.command };
  allocation = trim_address r.allocation;
}

-- The loops that copy one map of variables over another.
unfoldable pub merge : Dict Text Text → Dict Text Text → Dict Text Text
merge base [] = base
merge base ((key, value) ∷ rest) = merge (insert key value base) rest

-- `cellAllocations`
unfoldable pub cell_allocations : Cell → List Allocation
cell_allocations cell = cell.allocation ∷ cell.additional_allocations
