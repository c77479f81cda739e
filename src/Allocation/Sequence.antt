-- ===== src/Allocation/Sequence.antt =====
-- Sequences of operations: what every manager keeps, and that no address is handed out twice.
use hive_worker.Base.{
  Text, sym, subst, inl, inr, Bool, List, [], ◌∷◌, arith, add, remove, text_eq, Result,
  contains-remove, NoRepeat,
}
use hive_worker.Allocation.{
  Allocation, Error, Manager, allocation_key, new_manager, reconfigure, reserve, reserve_all,
  reserve_existing, reserve_many, free, free_all, replace_reservations, release, allocate,
  allocate_for_ip, normalise_allocation,
}
use hive_worker.Allocation.Normal.{IsNormalList, normalise_allocations-IsNormalList}
use hive_worker.Allocation.Config.{reconfigure_lem}
use hive_worker.Allocation.Allocate.{
  Allocated, given, nothing_configured, nothing_free, allocate_lem,
}
use hive_worker.Allocation.ForIp.{AllocatedFor, no_host, not_configured, allocate_for_ip_lem}
use hive_worker.Allocation.ForIp

-- The allowed addresses are normal, and no key is stored twice.
pub record IsWellFormed (m : Manager) : Type 0 where
  pub normal : IsNormalList m.allowed
  pub once : NoRepeat m.used

-- The operations that change a manager; where a call asks the system for a free port, it carries
-- the answers.
pub data Operation : Type 0 where
  reconfigured : List Allocation → Operation
  reserved : Allocation → Operation
  reserved_many : List Allocation → Operation
  replaced : List Allocation → List Allocation → Operation
  released : Allocation → Operation
  allocated : (Text → Bool) → Operation
  allocated_for : (Text → Bool) → Text → Operation

abbrev pub apply : Operation → Manager → Manager
apply (reconfigured xs) m = (reconfigure xs m).0
apply (reserved a) m = reserve_existing a m
apply (reserved_many xs) m = reserve_many xs m
apply (replaced old new) m = replace_reservations old new m
apply (released a) m = release a m
apply (allocated can_listen) m = (allocate can_listen m).0
apply (allocated_for can_listen ip) m = (allocate_for_ip can_listen ip m).0

abbrev pub apply_all : List Operation → Manager → Manager
apply_all [] m = m
apply_all (op ∷ ops) m = apply_all ops (apply op m)

add-NoRepeat : (key : Text) (used : List Text) → NoRepeat used → NoRepeat (add key used)
unfolding add
add-NoRepeat key used h = ground arith

remove-NoRepeat : (key : Text) (used : List Text) → NoRepeat used → NoRepeat (remove key used)
unfolding remove
remove-NoRepeat key [] h = tt
remove-NoRepeat key (k ∷ used) h =
    ground (arith, remove-NoRepeat key used, contains-remove k key used)

reserve-NoRepeat : (a : Allocation) (used : List Text) → NoRepeat used → NoRepeat (reserve a used)
unfolding reserve
reserve-NoRepeat a used h =
    ground (arith, add-NoRepeat (allocation_key (normalise_allocation a)) used)

reserve_all-NoRepeat :
    (xs : List Allocation) (used : List Text) → NoRepeat used → NoRepeat (reserve_all xs used)
unfolding reserve_all
reserve_all-NoRepeat [] used h = h
reserve_all-NoRepeat (a ∷ rest) used h =
    reserve_all-NoRepeat rest (reserve a used) (reserve-NoRepeat a used h)

free-NoRepeat : (a : Allocation) (used : List Text) → NoRepeat used → NoRepeat (free a used)
unfolding free
free-NoRepeat a used h =
    ground (arith, remove-NoRepeat (allocation_key (normalise_allocation a)) used)

free_all-NoRepeat :
    (xs : List Allocation) (used : List Text) → NoRepeat used → NoRepeat (free_all xs used)
unfolding free_all
free_all-NoRepeat [] used h = h
free_all-NoRepeat (a ∷ rest) used h = free_all-NoRepeat rest (free a used) (free-NoRepeat a used h)

Allocated-IsWellFormed :
    {can_listen : Text → Bool} {m m' : Manager} {r : Result Error Allocation}
    → Allocated can_listen m m' r
    → IsWellFormed m
    → IsWellFormed m'
Allocated-IsWellFormed {m} (given a first e) w =
    subst IsWellFormed (sym e) (record { normal = w.normal; once = add-NoRepeat _ m.used w.once })
Allocated-IsWellFormed (nothing_configured h e) w = subst IsWellFormed (sym e) w
Allocated-IsWellFormed (nothing_free h k e) w = subst IsWellFormed (sym e) w

AllocatedFor-IsWellFormed :
    {can_listen : Text → Bool} {ip : Text} {m m' : Manager} {r : Result Error Allocation}
    → AllocatedFor can_listen ip m m' r
    → IsWellFormed m
    → IsWellFormed m'
AllocatedFor-IsWellFormed {m} (ForIp.AllocatedFor.given a first e) w =
    subst IsWellFormed (sym e) (record { normal = w.normal; once = add-NoRepeat _ m.used w.once })
AllocatedFor-IsWellFormed (no_host h e) w = subst IsWellFormed (sym e) w
AllocatedFor-IsWellFormed (not_configured h e) w = subst IsWellFormed (sym e) w
AllocatedFor-IsWellFormed (ForIp.AllocatedFor.nothing_free h k e) w = subst IsWellFormed (sym e) w

apply-IsWellFormed : (op : Operation) (m : Manager) → IsWellFormed m → IsWellFormed (apply op m)
apply-IsWellFormed (reconfigured xs) m w = elim (reconfigure_lem xs m) [
  | inl (e, accepted) ↦
      rw (e, apply) (record { normal = normalise_allocations-IsNormalList xs; once = w.once })
  | inr (x, e, reason) ↦ rw (e, apply) w
]
apply-IsWellFormed (reserved a) m w =
    unfold reserve_existing in record { normal = w.normal; once = reserve-NoRepeat a m.used w.once }
apply-IsWellFormed (reserved_many xs) m w =
    unfold reserve_many in
    record { normal = w.normal; once = reserve_all-NoRepeat xs m.used w.once }
apply-IsWellFormed (replaced old new) m w =
    unfold replace_reservations in
    record {
      normal = w.normal;
      once = reserve_all-NoRepeat new _ (free_all-NoRepeat old m.used w.once);
    }
apply-IsWellFormed (released a) m w =
    unfold release in record { normal = w.normal; once = free-NoRepeat a m.used w.once }
apply-IsWellFormed (allocated can_listen) m w = Allocated-IsWellFormed (allocate_lem can_listen m) w
apply-IsWellFormed (allocated_for can_listen ip) m w =
    AllocatedFor-IsWellFormed (allocate_for_ip_lem can_listen ip m) w

-- From a new manager, after any sequence of operations, the allowed addresses are trimmed, valid
-- and without repetition, and no key is stored twice.
pub apply_all-IsWellFormed :
    (xs : List Allocation) (ops : List Operation) → IsWellFormed (apply_all ops (new_manager xs))
apply_all-IsWellFormed xs ops = go ops (new_manager xs) start
  where
    go : (ops : List Operation) (m : Manager) → IsWellFormed m → IsWellFormed (apply_all ops m)
    go [] m w = w
    go (op ∷ rest) m w = go rest (apply op m) (apply-IsWellFormed op m w)

    start : IsWellFormed (new_manager xs)
    start =
        unfold new_manager in record { normal = normalise_allocations-IsNormalList xs; once = tt }
