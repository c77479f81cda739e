-- ===== src/Tests/Allocation.antt =====
-- internal/allocation: a worker with two ports on one host and one on another.
use hive_worker.Base.{
  ℕ, Text, ◌≡◌, refl, ◌⊎◌, ◌||◌, ◌&&◌, not, Bool, true, false, List, [], ◌∷◌, contains, NoRepeat,
  ok, err, text_eq, add,
}
use hive_worker.Go.Text.{codes, trim_space}
use hive_worker.Go.Net.{join_host_port}
use hive_worker.Go.Decimal.{itoa}
use hive_worker.Go.Int.{pos}
use hive_worker.Allocation.{
  Allocation, Manager, Error, keys, allocation_key, new_manager, reconfigure, allocate,
  valid_allocation, normalise_from, normalise_allocation, normalise_allocations, reserve_existing,
  replace_reservations,
}
use hive_worker.Allocation.Normal.{valid_keys}
use hive_worker.Allocation.Config.{IsAccepted, Refusal, reconfigure_lem}
use hive_worker.Allocation.Reserve.{contains-replace_reservations}
use hive_worker.Allocation.Allocate.{Allocated, allocate_lem}
use hive_worker.Allocation.Sequence.{
  IsWellFormed, Operation, allocated, released, reconfigured, apply_all, apply_all-IsWellFormed,
}
use hive_worker.Go.Text.{trim_space}
use hive_worker.Allocation.Exclusive.{Call, any, for_ip, handed_out, handed_out-IsExclusive}

abbrev entry : Text → ℕ → Allocation
entry ip port = record { ip = ip; port = pos port }

abbrev first : Allocation
first = entry (codes "10.0.0.1") 25565

abbrev second : Allocation
second = entry (codes " 10.0.0.1 ") 25566

abbrev third : Allocation
third = entry (codes "fe80::1") 25565

abbrev entries : List Allocation
entries = first ∷ second ∷ first ∷ third ∷ entry [] 1 ∷ entry (codes "10.0.0.2") 0 ∷ []

abbrev every_port : Text → Bool
every_port _ = true

worker : Manager
unfolding new_manager normalise_allocations normalise_from normalise_allocation valid_allocation
    allocation_key join_host_port trim_space itoa text_eq add
worker = new_manager entries

normal_keys :
    keys (worker.allowed)
    ≡ codes "10.0.0.1:25565" ∷ codes "10.0.0.1:25566" ∷ codes "[fe80::1]:25565" ∷ []
unfolding worker
normal_keys = refl

two_calls : (allocate every_port worker).1 ≡ ok first
unfolding worker allocate
two_calls = refl

reconfigure_lem_example :
    ((reconfigure (second ∷ []) worker ≡ (
      record worker { allowed = normalise_allocations (second ∷ []) },
      ok (normalise_allocations (second ∷ [])),
    ))
      × IsAccepted (normalise_allocations (second ∷ [])) (worker.used))
    ⊎ ((e : Error) × (reconfigure (second ∷ []) worker ≡ (worker, err e))
        × Refusal (normalise_allocations (second ∷ [])) (worker.used) e)
reconfigure_lem_example = reconfigure_lem (second ∷ []) worker

contains-replace_reservations_example :
    contains
      (allocation_key third)
      (replace_reservations (first ∷ []) (third ∷ []) (reserve_existing first worker)).used
    ≡ (contains (allocation_key third) (valid_keys (third ∷ []))
        || (not (contains (allocation_key third) (valid_keys (first ∷ [])))
            && contains (allocation_key third) (reserve_existing first worker).used))
contains-replace_reservations_example =
    contains-replace_reservations (first ∷ []) (third ∷ []) (reserve_existing first worker)
      (allocation_key third)

-- A manager with one address in use, its key written out.
abbrev busy : Manager
busy = record { allowed = first ∷ []; used = codes "10.0.0.1:25565" ∷ [] }

first_keys : valid_keys (first ∷ []) ≡ codes "10.0.0.1:25565" ∷ []
unfolding worker
first_keys = refl

third_keys : valid_keys (third ∷ []) ≡ codes "[fe80::1]:25565" ∷ []
unfolding worker
third_keys = refl

first_valid : valid_allocation (normalise_allocation first) ≡ true
unfolding worker
first_valid = refl

third_valid : valid_allocation (normalise_allocation third) ≡ true
unfolding worker
third_valid = refl

allocate_lem_example :
    Allocated every_port busy (allocate every_port busy).0 (allocate every_port busy).1
allocate_lem_example = allocate_lem every_port busy

abbrev history : List Operation
history = allocated every_port ∷ released first ∷ reconfigured (third ∷ []) ∷ []

apply_all-IsWellFormed_example : IsWellFormed (apply_all history (new_manager entries))
apply_all-IsWellFormed_example = apply_all-IsWellFormed entries history

abbrev calls : List Call
calls = any every_port ∷ for_ip every_port (codes "10.0.0.1") ∷ any every_port ∷ []

handed_out-IsExclusive_example :
    NoRepeat (keys (handed_out calls worker))
    × ((key : Text)
        → contains key (keys (handed_out calls worker)) ≡ true
        → contains key (worker.used) ≡ false)
handed_out-IsExclusive_example = handed_out-IsExclusive calls worker
