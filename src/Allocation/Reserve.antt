-- ===== src/Allocation/Reserve.antt =====
-- Reservations: what `IsReserved` answers after each operation, and when an exchange can be undone.
use hive_worker.Base.{
  Bool-cases, inl, inr, ap, ap₂, sym, ◌∙◌, Text, ◌≡◌, refl, ◌↔◌, ◌⊎◌, true, false, ◌||◌, ◌&&◌, not,
  List, [], ◌∷◌, arith, contains, text_eq, contains-add, contains-remove,
}
use hive_worker.Go.Text.Trim.{trim_space_idem}
use hive_worker.Allocation.{
  Allocation, Manager, allocation_key, valid_allocation, normalise_allocation, reserve, reserve_all,
  free, free_all, reserve_existing, replace_reservations, release, is_reserved,
}
use hive_worker.Allocation.Keys.{SameAddress, allocation_key_iff}
use hive_worker.Allocation.Normal.{valid_keys}

contains-reserve_all :
    (key : Text) (xs : List Allocation) (used : List Text)
    → contains key (reserve_all xs used) ≡ (contains key (valid_keys xs) || contains key used)
unfolding reserve_all
contains-reserve_all key [] used = refl
contains-reserve_all key (a ∷ rest) used = ground (
  arith,
  contains-reserve_all key rest (reserve a used),
  contains-add key (allocation_key (normalise_allocation a)) used,
)

contains-free_all :
    (key : Text) (xs : List Allocation) (used : List Text)
    → contains key (free_all xs used) ≡ (not (contains key (valid_keys xs)) && contains key used)
unfolding free_all
contains-free_all key [] used = refl
contains-free_all key (a ∷ rest) used = ground (
  arith,
  contains-free_all key rest (free a used),
  contains-remove key (allocation_key (normalise_allocation a)) used,
)

-- After `ReplaceReservations` a key is in use exactly if the new list reserves it, or if it was in
-- use and the old list does not release it.
pub contains-replace_reservations :
    (old_allocations new_allocations : List Allocation) (m : Manager) (key : Text)
    → contains key (replace_reservations old_allocations new_allocations m).used ≡ (
        contains key (valid_keys new_allocations)
        || (not (contains key (valid_keys old_allocations)) && contains key m.used))
unfolding replace_reservations
contains-replace_reservations old_allocations new_allocations m key = ground (
  arith,
  contains-reserve_all key new_allocations (free_all old_allocations m.used),
  contains-free_all key old_allocations m.used,
)

module _ (old_allocations new_allocations : List Allocation) (m : Manager) where
  -- The exchange made by an update, and the exchange back after a failure.
  abbrev pub there_and_back : Manager
  there_and_back =
      replace_reservations new_allocations old_allocations
        (replace_reservations old_allocations new_allocations m)

  -- Whether a key is in use after an exchange and the exchange back.
  pub contains-there_and_back :
      (key : Text)
      → contains key there_and_back.used ≡ (
          contains key (valid_keys old_allocations)
          || (not (contains key (valid_keys new_allocations)) && contains key m.used))
  contains-there_and_back key = ground (
    arith,
    contains-replace_reservations new_allocations old_allocations
        (replace_reservations old_allocations new_allocations m) key,
    contains-replace_reservations old_allocations new_allocations m key,
  )

  -- If the old addresses were all in use and no new address was in use but the old ones,
  -- exchanging reservations and exchanging them back restores every reservation.
  pub there_and_back_restores :
      ((key : Text) → contains key (valid_keys old_allocations) ≡ true → contains key m.used ≡ true)
      → ((key : Text)
          → contains key (valid_keys new_allocations) ≡ true
          → contains key m.used ≡ true
          → contains key (valid_keys old_allocations) ≡ true)
      → (key : Text) → contains key there_and_back.used ≡ contains key m.used
  there_and_back_restores held fresh key =
      ground (arith, contains-there_and_back key, held key, fresh key)

  -- A new address that another cell had in use, and that is not among the old ones, is no longer
  -- in use after an exchange of reservations and the exchange back.
  pub there_and_back_loses :
      (key : Text)
      → contains key (valid_keys new_allocations) ≡ true
      → contains key (valid_keys old_allocations) ≡ false
      → contains key m.used ≡ true
      → contains key there_and_back.used ≡ false
  there_and_back_loses key asked other held = ground (arith, contains-there_and_back key)

abbrev IsValid : Allocation → Type 0
IsValid a = valid_allocation (normalise_allocation a) ≡ true

allocation_key-normalise_allocation :
    (a : Allocation) → allocation_key (normalise_allocation a) ≡ allocation_key a
unfolding allocation_key normalise_allocation
allocation_key-normalise_allocation a = rw trim_space_idem

module _ (a b : Allocation) (m : Manager) (valid_a : IsValid a) (valid_b : IsValid b) where
  -- After `ReserveExisting` of a valid address, the valid addresses that are reserved are that one
  -- and those that were.
  pub is_reserved-reserve_existing :
      (is_reserved b (reserve_existing a m) ≡ true) ↔ (SameAddress b a ⊎ (is_reserved b m ≡ true))
  unfolding is_reserved reserve_existing
  is_reserved-reserve_existing = ground (
    arith,
    allocation_key-normalise_allocation a,
    allocation_key-normalise_allocation b,
    contains-add (allocation_key b) (allocation_key a) m.used,
    allocation_key_iff b a,
  )

  -- After `Release` of a valid address, the valid addresses that are reserved are those that were,
  -- but that one.
  pub is_reserved-release :
      (is_reserved b (release a m) ≡ true) ↔ ((¬ SameAddress b a) × (is_reserved b m ≡ true))
  unfolding is_reserved release
  is_reserved-release = ground (
    arith,
    allocation_key-normalise_allocation a,
    allocation_key-normalise_allocation b,
    contains-remove (allocation_key b) (allocation_key a) m.used,
    allocation_key_iff b a,
  )

same_valid :
    (a b : Allocation)
    → SameAddress b a
    → valid_allocation (normalise_allocation b) ≡ valid_allocation (normalise_allocation a)
unfolding normalise_allocation
same_valid a b (ip, port) = ap₂ (λ h p. valid_allocation (record { ip = h; port = p })) ip port

release_invalid :
    (a : Allocation) (m : Manager)
    → valid_allocation (normalise_allocation a) ≡ false
    → release a m ≡ m
unfolding release free
release_invalid a m invalid = rw invalid refl

-- The addresses that are still reserved after any release are those that were and differ from it.
pub is_reserved-release_any :
    (a b : Allocation) (m : Manager)
    → IsValid b
    → (is_reserved b (release a m) ≡ true) ↔ ((¬ SameAddress b a) × (is_reserved b m ≡ true))
is_reserved-release_any a b m valid_b =
    elim (Bool-cases (valid_allocation (normalise_allocation a))) [
      | inl valid ↦ is_reserved-release a b m valid valid_b
      | inr invalid ↦
          let kept = ap (is_reserved b) (release_invalid a m invalid) in
          (
            (λ h. ((λ same. absurd (let e = same_valid a b same in ground arith)), sym kept ∙ h)),
            λ (_, h). kept ∙ h,
          )
    ]

-- Reserving an address keeps the reservations that there are.
pub is_reserved-reserve_more :
    (a b : Allocation) (m : Manager)
    → is_reserved b m ≡ true
    → is_reserved b (reserve_existing a m) ≡ true
unfolding is_reserved reserve_existing
is_reserved-reserve_more a b m held = ground (
  arith,
  contains-add (allocation_key (normalise_allocation b)) (allocation_key (normalise_allocation a))
      m.used,
)

pub is_reserved-reserve_self :
    (a : Allocation) (m : Manager)
    → valid_allocation (normalise_allocation a) ≡ true
    → is_reserved a (reserve_existing a m) ≡ true
unfolding is_reserved reserve_existing
is_reserved-reserve_self a m valid = ground (
  arith,
  contains-add (allocation_key (normalise_allocation a)) (allocation_key (normalise_allocation a))
      m.used,
)
