-- ===== src/Tests/Config.antt =====
-- internal/config/config.go: the configuration of a worker.
use hive_worker.Base.{
  Text, ◌≡◌, ◌≢◌, refl, true, false, Option, none, some, [], ◌∷◌, All, text_eq, ℕ_discrete, ok, err,
  ◌⊎◌,
}
use hive_worker.Go.Text.{codes, trim_space}
use hive_worker.Go.Int.{ℤ, pos, leb_ℤ, int_eq}
use hive_worker.Go.Decimal.{itoa}
use hive_worker.Go.Ip.{is_ipv4}
use hive_worker.Go.Path.{clean}
use hive_worker.Go.Net.{join_host_port}
use hive_worker.Allocation.{new_manager, normalise_allocations}
use hive_worker.Allocation.Normal.{IsNormal}
use hive_worker.Config.{
  entries_capacity, Config, required, default_config, normalise, validate, trim_slash,
  normalise_allocation_ips, normalise_allocation_entries, deduplicate_allocation_entries,
  deduplicate_from, validate_entries,
}
use hive_worker.Config.Loading.{holding, nothing, load, apply_environment_overrides}
use hive_worker.Config.Loaded.{IsHost, SftpIsReady, load_lem}
use hive_worker.Config.Bounds.{InRange, normalise-InRange}
use hive_worker.Config.Entries.{deduplicate_allocation_entries-eq}

abbrev no_int : Text → Option ℤ
no_int text = none

abbrev no_variable : Text → Text
no_variable name = []

-- The default configuration with a name and a single address.
abbrev given : Config
given = record default_config {
  node = record { id = codes "n" };
  allocations = record default_config.allocations {
    entries = record { ip = codes " ::"; port = pos 80 } ∷ [];
  };
}

normalised : validate (normalise no_int given) ≡ ok tt
unfolding default_config validate normalise trim_slash trim_space clean text_eq ℕ_discrete int_eq
    normalise_allocation_entries deduplicate_allocation_entries deduplicate_from validate_entries
normalised = refl

abbrev decoder : Text → Config → Option Config
decoder content defaults = some given

loaded :
    load no_int (leb_ℤ (pos 0)) decoder no_variable (codes "/c") (holding []) nothing false
    ≡ ok (normalise no_int given)
unfolding load apply_environment_overrides entries_capacity default_config validate normalise
    trim_slash trim_space clean text_eq ℕ_discrete int_eq normalise_allocation_entries
    deduplicate_allocation_entries deduplicate_from validate_entries
loaded = refl

load_lem_example :
    let cfg = normalise no_int given in
    (cfg.allocations.entries ≢ [])
    × All IsNormal cfg.allocations.entries
    × All IsHost cfg.allocations.entries
    × ((new_manager cfg.allocations.entries).allowed ≡ cfg.allocations.entries)
    × ((cfg.sftp.enabled ≡ false) ⊎ SftpIsReady cfg)
load_lem_example =
    load_lem no_int (leb_ℤ (pos 0)) decoder no_variable (codes "/c") (holding []) nothing false
      {cfg = normalise no_int given} loaded

-- The defaults alone are refused: SFTP is on, and the node has no id.
defaults_refused : validate (normalise no_int default_config) ≡ err (required (codes "node.id"))
unfolding default_config validate normalise trim_slash trim_space clean text_eq ℕ_discrete int_eq
    normalise_allocation_entries deduplicate_allocation_entries deduplicate_from validate_entries
    normalise_allocation_ips is_ipv4 join_host_port itoa
defaults_refused = refl

normalise-InRange_example :
    (InRange (normalise no_int given).sftp.public_port
      ⊎ (((normalise no_int given).sftp.public_port ≡ given.sftp.public_port)
          × (given.sftp.public_port ≢ pos 0)))
    × (leb_ℤ (pos 1) (normalise no_int given).sftp.auth_timeout_seconds ≡ true)
normalise-InRange_example = normalise-InRange no_int given

deduplicate_allocation_entries-eq_example :
    deduplicate_allocation_entries given.allocations.entries
    ≡ normalise_allocations given.allocations.entries
deduplicate_allocation_entries-eq_example =
    deduplicate_allocation_entries-eq given.allocations.entries
