-- ===== src/Allocation/Keys.antt =====
-- The map key of an address determines the address.
use hive_worker.Base.{◌≡◌, ◌↔◌, ap₂}
use hive_worker.Go.Text.{trim_space}
use hive_worker.Go.Decimal.{itoa}
use hive_worker.Go.Decimal.Laws.{itoa_injective, itoa-Lacks_colon}
use hive_worker.Go.Net.{join_host_port, join_host_port_injective}
use hive_worker.Allocation.{Allocation, allocation_key}

-- The same host, up to spaces round it, and the same port.
abbrev pub SameAddress : Allocation → Allocation → Type 0
SameAddress a b = (trim_space a.ip ≡ trim_space b.ip) × (a.port ≡ b.port)

allocation_key_sound : (a b : Allocation) → allocation_key a ≡ allocation_key b → SameAddress a b
unfolding allocation_key
allocation_key_sound a b e =
    let (hosts, ports) =
      join_host_port_injective _ _ _ _ (itoa-Lacks_colon a.port) (itoa-Lacks_colon b.port) e in
    (hosts, itoa_injective a.port b.port ports)

-- Two addresses have one map key exactly when their hosts agree up to surrounding spaces and their
-- ports agree.
pub allocation_key_iff :
    (a b : Allocation) → (allocation_key a ≡ allocation_key b) ↔ SameAddress a b
unfolding allocation_key
allocation_key_iff a b =
    (allocation_key_sound a b, λ (hosts, ports). ap₂ (λ h p. join_host_port h (itoa p)) hosts ports)
