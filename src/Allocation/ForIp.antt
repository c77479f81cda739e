-- ===== src/Allocation/ForIp.antt =====
-- `AllocateForIP`: the first free entry of one host, and the three ways to fail.
use hive_worker.Base.{
  Text, ◌≡◌, ◌≢◌, refl, ◌⊎◌, inl, inr, Bool, true, false, ◌||◌, List, [], ◌∷◌, arith, All, contains,
  add, map, text_eq, Result, ok, err, Option, none, some, Bool-cases, ◌==◌, if◌then◌else◌,
}
use hive_worker.Go.Text.{is_empty, trim_space}
use hive_worker.Allocation.{
  Allocation, Error, ip_required, none_free_for_ip, ip_not_configured, Manager, allocation_key,
  is_port_free, take_free, first_free_for, allocate_for_ip,
}
use hive_worker.Allocation.Allocate.{
  IsTaken, IsFree, IsFirst, IsFirst-cons, IsFirst-here, is_empty-eq-nil,
}

module _ (can_listen : Text → Bool) (ip : Text) where
  abbrev pub IsWanted : List Text → Allocation → Type 0
  IsWanted used a = (a.ip ≡ ip) × IsFree can_listen used a

  abbrev pub IsPassed : List Text → Allocation → Type 0
  IsPassed used a = (a.ip ≢ ip) ⊎ IsTaken can_listen used a

  abbrev pub hosts : List Allocation → List Text
  hosts = map (λ (a : Allocation). a.ip)

  -- What the loop returns, begun with the flag `seen`.
  FirstFreeFor : List Text → Bool → List Allocation → Bool × Option Allocation → Type 0
  FirstFreeFor used seen xs (configured, none) =
      All (IsPassed used) xs × (configured ≡ (seen || contains ip (hosts xs)))
  FirstFreeFor used seen xs (configured, some a) =
      IsFirst can_listen (IsWanted used) (IsPassed used) xs a

  FirstFreeFor-cons :
      (used : List Text) (seen seen' : Bool) (xs : List Allocation) (r : Bool × Option Allocation)
      (b : Allocation)
      → IsPassed used b
      → seen' ≡ (seen || (ip == b.ip))
      → FirstFreeFor used seen' xs r
      → FirstFreeFor used seen (b ∷ xs) r
  unfolding FirstFreeFor
  FirstFreeFor-cons used seen seen' xs (configured, none) b passed e h =
      ((passed, h.0), ground (arith, h.1))
  FirstFreeFor-cons used seen seen' xs (configured, some a) b passed e h =
      IsFirst-cons can_listen b passed h

  first_free_for_lem :
      (used : List Text) (seen : Bool) (xs : List Allocation)
      → FirstFreeFor used seen xs (first_free_for can_listen ip used seen xs)
  unfolding first_free_for
  first_free_for_lem used seen [] = unfold FirstFreeFor in (tt, ground arith)
  first_free_for_lem used seen (a ∷ rest) = elim (Bool-cases (a.ip == ip)) [
    | inl same ↦ elim (Bool-cases (contains (allocation_key a) used)) [
      | inl held ↦
          rw (same, held)
            (FirstFreeFor-cons used seen true rest _ a (inr (inl held)) (ground arith)
              (first_free_for_lem used true rest))
      | inr open_key ↦ elim (Bool-cases (is_port_free can_listen a.ip a.port)) [
        | inl bound ↦
            rw (same, open_key, bound)
              (unfold FirstFreeFor in
                IsFirst-here can_listen rest a (ground arith, (open_key, bound)))
        | inr busy ↦
            rw (same, open_key, busy)
              (FirstFreeFor-cons used seen true rest _ a (inr (inr busy)) (ground arith)
                (first_free_for_lem used true rest))
      ]
    ]
    | inr other ↦ rw other (
        FirstFreeFor-cons used seen seen rest _ a (inl (ground arith)) (ground arith)
          (first_free_for_lem used seen rest))
  ]

module _ (can_listen : Text → Bool) (ip : Text) (m : Manager) where
  -- What `AllocateForIP` does for a host without spaces round it.
  pub data AllocatedFor (m' : Manager) : Result Error Allocation → Type 0 where
    given :
        (a : Allocation)
        → IsFirst can_listen
            (IsWanted can_listen ip m.used)
            (IsPassed can_listen ip m.used)
            m.allowed
            a
        → m' ≡ record m { used = add (allocation_key a) m.used }
        → AllocatedFor m' (ok a)
    no_host : ip ≡ [] → m' ≡ m → AllocatedFor m' (err ip_required)
    not_configured :
        contains ip (hosts can_listen ip m.allowed) ≡ false
        → m' ≡ m
        → AllocatedFor m' (err ip_not_configured)
    nothing_free :
        contains ip (hosts can_listen ip m.allowed) ≡ true
        → All (IsPassed can_listen ip m.used) m.allowed
        → m' ≡ m
        → AllocatedFor m' (err none_free_for_ip)

  take_free-AllocatedFor :
      (r : Bool × Option Allocation)
      → FirstFreeFor can_listen ip m.used false m.allowed r
      → let outcome =
          take_free can_listen m (if r.0 then none_free_for_ip else ip_not_configured) r.1 in
        AllocatedFor outcome.0 outcome.1
  unfolding FirstFreeFor
  take_free-AllocatedFor (true, none) h = nothing_free (ground (arith, h.1)) h.0 refl
  take_free-AllocatedFor (false, none) h = not_configured (ground (arith, h.1)) refl
  take_free-AllocatedFor (_, some a) h = given a h refl

pub allocate_for_ip_lem :
    (can_listen : Text → Bool) (text : Text) (m : Manager)
    → AllocatedFor can_listen
        (trim_space text)
        m
        (allocate_for_ip can_listen text m).0
        (allocate_for_ip can_listen text m).1
unfolding allocate_for_ip
allocate_for_ip_lem can_listen text m = elim (Bool-cases (is_empty (trim_space text))) [
  | inl empty ↦ rw empty (no_host (is_empty-eq-nil (trim_space text) empty) refl)
  | inr host ↦ rw host (
      take_free-AllocatedFor can_listen (trim_space text) m _
        (first_free_for_lem can_listen (trim_space text) m.used false m.allowed))
]
