-- ===== src/Config/Entries.antt =====
-- internal/config/config.go: the entries that a configuration keeps, beside those that the address
-- manager of internal/allocation/manager.go keeps.
use hive_worker.Base.{Text, ◌≡◌, refl, List, [], ◌∷◌, arith, add, text_eq, ◌+◌, ◌-◌}
use hive_worker.Go.Text.{trim_space}
use hive_worker.Go.Text.Trim.{trim_space_idem}
use hive_worker.Go.Int.{pos_part}
use hive_worker.Allocation.{
  Allocation, normalise_allocations, normalise_from, normalise_allocation, valid_allocation,
  allocation_key,
}
use hive_worker.Allocation.Normal.{IsNormalList, normalise_allocations-IsNormalList}
use hive_worker.Config.{
  AllocationConfig, deduplicate_from, deduplicate_allocation_entries, normalise_allocation_entries,
  normalise_allocation_ips, all_ports,
}

deduplicate_from-eq :
    (seen : List Text) (xs : List Allocation) → deduplicate_from seen xs ≡ normalise_from seen xs
unfolding deduplicate_from normalise_from normalise_allocation valid_allocation allocation_key add
deduplicate_from-eq seen [] = refl
deduplicate_from-eq seen (a ∷ rest) = ground (
  arith,
  trim_space_idem a.ip,
  deduplicate_from-eq seen rest,
  deduplicate_from-eq (allocation_key (normalise_allocation a) ∷ seen) rest,
)

-- The entries that a configuration keeps of a list are those that the manager of addresses keeps.
pub deduplicate_allocation_entries-eq :
    (xs : List Allocation) → deduplicate_allocation_entries xs ≡ normalise_allocations xs
unfolding deduplicate_allocation_entries normalise_allocations
deduplicate_allocation_entries-eq xs = deduplicate_from-eq [] xs

pub deduplicate_allocation_entries-IsNormalList :
    (xs : List Allocation) → IsNormalList (deduplicate_allocation_entries xs)
deduplicate_allocation_entries-IsNormalList xs =
    rw (deduplicate_allocation_entries-eq xs) (normalise_allocations-IsNormalList xs)

-- The entries of a repaired configuration are trimmed and valid, and none is there twice.
pub normalise_allocation_entries-IsNormalList :
    (cfg : AllocationConfig) → IsNormalList (normalise_allocation_entries cfg)
unfolding normalise_allocation_entries
normalise_allocation_entries-IsNormalList cfg =
    let ips = normalise_allocation_ips (trim_space cfg.ip) cfg.ips in
    let first = pos_part cfg.port_start in
    let count = pos_part cfg.port_end + 1 - first in
    ground (
      arith,
      deduplicate_allocation_entries-IsNormalList cfg.entries,
      deduplicate_allocation_entries-IsNormalList (all_ports ips first count),
    )
