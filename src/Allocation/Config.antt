-- ===== src/Allocation/Config.antt =====
-- What `Reconfigure` accepts, what it refuses and why.
use hive_worker.Base.{
  Text, ◌≡◌, ◌≢◌, refl, ◌⊎◌, inl, inr, true, false, List, [], ◌∷◌, arith, All, contains, text_eq,
  ok, err, none, some, Bool-cases,
}
use hive_worker.Go.Text.{codes}
use hive_worker.Go.Ip.{is_ip}
use hive_worker.Allocation.{
  Allocation, Error, at_least_one, invalid_ip, still_in_use, Manager, allocation_key, keys,
  valid_allocation, normalise_allocation, normalise_allocations, validate_allocation, validate_all,
  validate_configuration, first_outside, reconfigure, commit_valid,
}
use hive_worker.Allocation.Normal.{IsNormal, normalise_allocations-IsNormalList}

any_four : is_ip (codes "0.0.0.0") ≡ true
unfolding is_ip
any_four = refl

any_six : is_ip (codes "::") ≡ true
unfolding is_ip
any_six = refl

-- A normal address fails its check only if its host is no IP address.
validate_allocation_lem :
    (a : Allocation)
    → IsNormal a
    → ((validate_allocation a ≡ ok tt) × (is_ip a.ip ≡ true))
      ⊎ ((validate_allocation a ≡ err (invalid_ip a.ip)) × (is_ip a.ip ≡ false))
unfolding validate_allocation normalise_allocation valid_allocation
validate_allocation_lem a n = ground (arith, n.valid, n.trimmed, any_four, any_six)

-- Why a configuration is refused.
pub data Refusal (normal : List Allocation) (used : List Text) (e : Error) : Type 0 where
  no_entry : normal ≡ [] → e ≡ at_least_one → Refusal normal used e
  bad_ip :
      (a : Allocation)
      → contains (allocation_key a) (keys normal) ≡ true
      → is_ip a.ip ≡ false
      → e ≡ invalid_ip a.ip
      → Refusal normal used e
  orphan :
      (key : Text)
      → contains key used ≡ true
      → contains key (keys normal) ≡ false
      → e ≡ still_in_use key
      → Refusal normal used e

abbrev BadHost : List Allocation → Error → Type 0
BadHost xs e =
    (a : Allocation) × (contains (allocation_key a) (keys xs) ≡ true)
    × (is_ip a.ip ≡ false)
    × (e ≡ invalid_ip a.ip)

validate_all_lem :
    (xs : List Allocation)
    → All IsNormal xs
    → ((validate_all xs ≡ ok tt) × All (λ a. is_ip a.ip ≡ true) xs)
      ⊎ ((e : Error) × (validate_all xs ≡ err e) × BadHost xs e)
unfolding validate_all
validate_all_lem [] n = inl (refl, tt)
validate_all_lem (a ∷ rest) (n, ns) = elim (validate_allocation_lem a n) [
  | inl (passed, host) ↦ elim (validate_all_lem rest ns) [
    | inl (later, hosts) ↦ inl (rw (passed, later), (host, hosts))
    | inr (e, later, (b, listed, bad, shown)) ↦
        inr (e, rw (passed, later), (b, ground arith, bad, shown))
  ]
  | inr (failed, bad) ↦ inr (invalid_ip a.ip, rw failed, (a, ground arith, bad, refl))
]

first_outside_lem :
    (allowed used : List Text)
    → ((first_outside allowed used ≡ none)
        × ((key : Text) → contains key used ≡ true → contains key allowed ≡ true))
      ⊎ ((key : Text) × (first_outside allowed used ≡ some key)
          × (contains key used ≡ true)
          × (contains key allowed ≡ false))
unfolding first_outside
first_outside_lem allowed [] = inl (refl, λ key h. cc)
first_outside_lem allowed (key ∷ rest) = elim (Bool-cases (contains key allowed)) [
  | inl inside ↦ elim (first_outside_lem allowed rest) [
    | inl (nothing, all_inside) ↦ inl (rw (inside, nothing), λ k h. ground (arith, all_inside k))
    | inr (k, found, used, outside) ↦ inr (k, rw (inside, found), ground arith, outside)
  ]
  | inr outside ↦ inr (key, rw outside, ground arith, outside)
]

-- What holds once a configuration is accepted: there is an entry, every host is an IP address,
-- and every key in use is still allowed.
pub record IsAccepted (normal : List Allocation) (used : List Text) : Type 0 where
  pub some_entry : normal ≢ []
  pub hosts : All (λ a. is_ip a.ip ≡ true) normal
  pub covered : (key : Text) → contains key used ≡ true → contains key (keys normal) ≡ true

validate_configuration_lem :
    (used : List Text) (xs : List Allocation)
    → All IsNormal xs
    → ((validate_configuration xs ≡ ok tt) × (xs ≢ []) × All (λ a. is_ip a.ip ≡ true) xs)
      ⊎ ((e : Error) × (validate_configuration xs ≡ err e) × Refusal xs used e)
unfolding validate_configuration
validate_configuration_lem used [] n = inr (at_least_one, refl, no_entry refl refl)
validate_configuration_lem used (a ∷ rest) n = elim (validate_all_lem (a ∷ rest) n) [
  | inl (passed, hosts) ↦ inl (passed, λ e. cc, hosts)
  | inr (e, failed, (b, listed, bad, shown)) ↦ inr (e, failed, bad_ip b listed bad shown)
]

module _ (xs : List Allocation) (m : Manager) where
  -- Reconfigure either installs the normalised list, keeps the reservations and returns the list,
  -- which then has an entry, only IP hosts and every key in use; or it changes nothing and returns
  -- an error whose reason holds: no valid entry, a host that is no IP address, or a key in use
  -- that the list lacks. No other error occurs.
  pub reconfigure_lem :
      ((reconfigure xs m
          ≡ (record m { allowed = normalise_allocations xs }, ok (normalise_allocations xs)))
        × IsAccepted (normalise_allocations xs) m.used)
      ⊎ ((e : Error) × (reconfigure xs m ≡ (m, err e))
          × Refusal (normalise_allocations xs) m.used e)
  unfolding reconfigure
  reconfigure_lem = elim (validate_configuration_lem m.used normal normals) [
    | inl (passed, entries, hosts) ↦ elim (first_outside_lem (keys normal) m.used) [
      | inl (nothing, covered) ↦ inl (
        rw (passed, commit_valid, nothing),
        record { some_entry = entries; hosts = hosts; covered = covered },
      )
      | inr (key, found, used, outside) ↦
          inr (still_in_use key, rw (passed, commit_valid, found), orphan key used outside refl)
    ]
    | inr (e, failed, reason) ↦ inr (e, rw failed, reason)
  ]
    where
      normal : List Allocation
      normal = normalise_allocations xs

      normals : All IsNormal normal
      normals = (normalise_allocations-IsNormalList xs).0
