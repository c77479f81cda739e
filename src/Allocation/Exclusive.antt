-- ===== src/Allocation/Exclusive.antt =====
-- No address is handed out twice, whatever the system answers about its ports.
use hive_worker.Base.{
  Text, ◌≡◌, Bool, true, false, List, [], ◌∷◌, arith, contains, add, ap, text_eq, Result, ok, err,
  contains-add, NoRepeat,
}
use hive_worker.Allocation.{
  Allocation, Error, Manager, allocation_key, keys, allocate, allocate_for_ip,
}
use hive_worker.Allocation.Allocate.{
  Allocated, given, nothing_configured, nothing_free, allocate_lem,
}
use hive_worker.Allocation.ForIp.{AllocatedFor, no_host, not_configured, allocate_for_ip_lem}
use hive_worker.Allocation.ForIp

-- A call of `Allocate` or `AllocateForIP`, with the system's answers about ports.
pub data Call : Type 0 where
  any : (Text → Bool) → Call
  for_ip : (Text → Bool) → Text → Call

unfoldable pub call : Call → Manager → Manager × Result Error Allocation
call (any can_listen) m = allocate can_listen m
call (for_ip can_listen ip) m = allocate_for_ip can_listen ip m

abbrev note : Result Error Allocation → List Allocation → List Allocation
note (ok a) rest = a ∷ rest
note (err e) rest = rest

-- The addresses that a sequence of calls hands out.
unfoldable pub handed_out : List Call → Manager → List Allocation
unfolding call
handed_out [] m = []
handed_out (c ∷ rest) m = let (m', r) = call c m in note r (handed_out rest m')

-- What a call leaves behind: a fresh key that is now in use, or no change.
abbrev Fresh : Manager → Manager → Result Error Allocation → Type 0
Fresh m m' (ok a) =
    (contains (allocation_key a) m.used ≡ false) × (m'.used ≡ add (allocation_key a) m.used)
Fresh m m' (err e) = m' ≡ m

Allocated-Fresh :
    {can_listen : Text → Bool} {m m' : Manager} (r : Result Error Allocation)
    → Allocated can_listen m m' r
    → Fresh m m' r
Allocated-Fresh _ (given a first e) = (first.found.0, ap (λ (x : Manager). x.used) e)
Allocated-Fresh _ (nothing_configured h e) = e
Allocated-Fresh _ (nothing_free h k e) = e

AllocatedFor-Fresh :
    {can_listen : Text → Bool} {ip : Text} {m m' : Manager} (r : Result Error Allocation)
    → AllocatedFor can_listen ip m m' r
    → Fresh m m' r
AllocatedFor-Fresh _ (ForIp.AllocatedFor.given a first e) =
    (first.found.1.0, ap (λ (x : Manager). x.used) e)
AllocatedFor-Fresh _ (no_host h e) = e
AllocatedFor-Fresh _ (not_configured h e) = e
AllocatedFor-Fresh _ (ForIp.AllocatedFor.nothing_free h k e) = e

call-Fresh : (c : Call) (m : Manager) → Fresh m (call c m).0 (call c m).1
unfolding call
call-Fresh (any can_listen) m = Allocated-Fresh _ (allocate_lem can_listen m)
call-Fresh (for_ip can_listen ip) m = AllocatedFor-Fresh _ (allocate_for_ip_lem can_listen ip m)

-- The keys are distinct, and none was in use.
record IsExclusive (used : List Text) (given_keys : List Text) : Type 0 where
  pub distinct : NoRepeat given_keys
  pub unused : (key : Text) → contains key given_keys ≡ true → contains key used ≡ false

handed_out_step :
    (m m' : Manager) (r : Result Error Allocation) (rest : List Allocation)
    → Fresh m m' r
    → IsExclusive m'.used (keys rest)
    → IsExclusive m.used (keys (note r rest))
handed_out_step m m' (err e) rest fresh h = rw (← fresh) h
handed_out_step m m' (ok a) rest (fresh, stored) h = record {
  distinct = ground (
    arith,
    h.distinct,
    stored,
    h.unused (allocation_key a),
    contains-add (allocation_key a) (allocation_key a) m.used,
  );
  unused = λ key listed.
      ground (arith, stored, h.unused key, contains-add key (allocation_key a) m.used);
}

handed_out-IsExclusive_record :
    (calls : List Call) (m : Manager) → IsExclusive m.used (keys (handed_out calls m))
unfolding handed_out
handed_out-IsExclusive_record [] m = record { distinct = tt; unused = λ key h. cc }
handed_out-IsExclusive_record (c ∷ rest) m =
    let (m', r) = call c m in
    handed_out_step m m' r (handed_out rest m') (call-Fresh c m)
      (handed_out-IsExclusive_record rest m')

-- Over any sequence of Allocate and AllocateForIP calls, whatever the system answers about ports,
-- the keys of the addresses handed out are distinct and none was in use before.
pub handed_out-IsExclusive :
    (calls : List Call) (m : Manager)
    → NoRepeat (keys (handed_out calls m))
      × ((key : Text)
          → contains key (keys (handed_out calls m)) ≡ true
          → contains key m.used ≡ false)
handed_out-IsExclusive calls m =
    let h = handed_out-IsExclusive_record calls m in (h.distinct, h.unused)
