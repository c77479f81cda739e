-- ===== src/Allocation.antt =====
-- internal/allocation/manager.go: the addresses that the worker may hand out, and those in use.
-- `used` is the map of the source, which never holds anything but true, as the list of its keys;
-- where the source ranges over the map, the order of that list stands for the iteration order.
-- Whether a port can be bound (`net.Listen`) is the parameter `can_listen`.
pub mod Keys
pub mod Normal
pub mod Config
pub mod Reserve
pub mod Allocate
pub mod ForIp
pub mod Sequence
pub mod Exclusive
use hive_worker.Base.{
  ℕ, Text, Bool, true, false, not, ◌&&◌, ◌||◌, Option, none, some, List, [], ◌∷◌, ◌++◌, map, ◌==◌,
  text_eq, contains, add, remove, if◌then◌else◌, Result, ok, err, ◌>>=◌, ◌>>◌,
}
use hive_worker.Go.Text.{codes, is_empty, trim_space}
use hive_worker.Go.Int.{ℤ, pos, leb_ℤ}
use hive_worker.Go.Decimal.{itoa}
use hive_worker.Go.Net.{join_host_port}
use hive_worker.Go.Ip.{is_ip}

pub record Allocation : Type 0 where
  pub ip : Text
  pub port : ℤ

pub data Error : Type 0 where
  at_least_one : Error
  ip_required : Error
  invalid_ip : Text → Error
  port_out_of_range : Text → Error
  still_in_use : Text → Error
  none_configured : Error
  none_free : Error
  ip_not_configured : Error
  none_free_for_ip : Error

pub record Manager : Type 0 where
  pub allowed : List Allocation
  pub used : List Text

unfoldable pub allocation_key : Allocation → Text
allocation_key a = join_host_port (trim_space a.ip) (itoa a.port)

abbrev pub port_in_range : ℤ → Bool
port_in_range port = leb_ℤ (pos 1) port && leb_ℤ port (pos 65535)

unfoldable pub normalise_allocation : Allocation → Allocation
normalise_allocation a = record a { ip = trim_space a.ip }

unfoldable pub valid_allocation : Allocation → Bool
valid_allocation a = not (is_empty a.ip) && port_in_range a.port

-- The loop of `normaliseAllocations`, with the keys that it has seen.
unfoldable pub normalise_from : List Text → List Allocation → List Allocation
normalise_from seen [] = []
normalise_from seen (a ∷ rest) =
    let item = normalise_allocation a in
    let key = allocation_key item in
    let skip = normalise_from seen rest in
    let keep = item ∷ normalise_from (add key seen) rest in
    if not (valid_allocation item) then skip else if contains key seen then skip else keep

unfoldable pub normalise_allocations : List Allocation → List Allocation
normalise_allocations = normalise_from []

unfoldable pub new_manager : List Allocation → Manager
new_manager allocations = record { allowed = normalise_allocations allocations; used = [] }

unfoldable pub configuration : Manager → List Allocation
configuration m = m.allowed

unfoldable pub validate_allocation : Allocation → Result Error (Unit {0})
unfolding normalise_allocation
validate_allocation a =
    let ip = (normalise_allocation a).ip in
    if is_empty ip
    then err ip_required
    else if not (ip == codes "0.0.0.0") && not (ip == codes "::") && not (is_ip ip)
    then err (invalid_ip ip)
    else if not (port_in_range a.port)
    then err (port_out_of_range ip)
    else ok tt

validate_all : List Allocation → Result Error (Unit {0})
validate_all [] = ok tt
validate_all (a ∷ rest) = let later = validate_all rest in do validate_allocation a; later

unfoldable pub validate_configuration : List Allocation → Result Error (Unit {0})
unfolding validate_all
validate_configuration [] = err at_least_one
validate_configuration (a ∷ rest) = validate_all (a ∷ rest)

-- The keys of `allocationSet`.
abbrev pub keys : List Allocation → List Text
keys = map allocation_key

-- The first key in use that is not allowed any more.
first_outside : List Text → List Text → Option Text
first_outside allowed [] = none
first_outside allowed (key ∷ rest) =
    let later = first_outside allowed rest in if contains key allowed then later else some key

abbrev commit_configuration :
    Manager → List Allocation → Option Text → Manager × Result Error (List Allocation)
commit_configuration m allocations (some key) = (m, err (still_in_use key))
commit_configuration m allocations none = (record m { allowed = allocations }, ok allocations)

abbrev commit_valid :
    Manager → List Allocation → Result Error (Unit {0}) → Manager × Result Error (List Allocation)
commit_valid m allocations (err e) = (m, err e)
commit_valid m allocations (ok _) =
    commit_configuration m allocations (first_outside (keys allocations) m.used)

unfoldable pub reconfigure : List Allocation → Manager → Manager × Result Error (List Allocation)
unfolding first_outside
reconfigure allocations m =
    let normal = normalise_allocations allocations in
    commit_valid m normal (validate_configuration normal)

-- The loop of `IPs`.
ips_from : List Text → List Allocation → List Text
ips_from seen [] = []
ips_from seen (a ∷ rest) =
    let skip = ips_from seen rest in
    let keep = a.ip ∷ ips_from (add a.ip seen) rest in if contains a.ip seen then skip else keep

unfoldable pub ips : Manager → List Text
unfolding ips_from
ips m = ips_from [] m.allowed

-- One round of the reserving loops: the key of a valid address is stored.
reserve : Allocation → List Text → List Text
reserve a used =
    let item = normalise_allocation a in
    if valid_allocation item then add (allocation_key item) used else used

reserve_all : List Allocation → List Text → List Text
unfolding reserve
reserve_all [] used = used
reserve_all (a ∷ rest) used = reserve_all rest (reserve a used)

free : Allocation → List Text → List Text
free a used =
    let item = normalise_allocation a in
    if valid_allocation item then remove (allocation_key item) used else used

free_all : List Allocation → List Text → List Text
unfolding free
free_all [] used = used
free_all (a ∷ rest) used = free_all rest (free a used)

unfoldable pub reserve_existing : Allocation → Manager → Manager
unfolding reserve
reserve_existing a m = record m { used = reserve a m.used }

unfoldable pub reserve_many : List Allocation → Manager → Manager
unfolding reserve_all
reserve_many allocations m = record m { used = reserve_all allocations m.used }

unfoldable pub replace_reservations : List Allocation → List Allocation → Manager → Manager
unfolding reserve_all free_all
replace_reservations old_allocations new_allocations m = record m {
  used = reserve_all new_allocations (free_all old_allocations m.used);
}

unfoldable pub release : Allocation → Manager → Manager
unfolding free
release a m = record m { used = free a m.used }

unfoldable pub is_reserved : Allocation → Manager → Bool
is_reserved a m =
    let item = normalise_allocation a in
    if valid_allocation item then contains (allocation_key item) m.used else false

module _ (can_listen : Text → Bool) where
  unfoldable pub is_port_free : Text → ℤ → Bool
  is_port_free ip port = can_listen (join_host_port (trim_space ip) (itoa port))

  -- The first allowed address that is not in use and whose port is free.
  first_free : List Text → List Allocation → Option Allocation
  unfolding is_port_free
  first_free used [] = none
  first_free used (a ∷ rest) =
      let later = first_free used rest in
      if contains (allocation_key a) used
      then later
      else if not (is_port_free a.ip a.port)
      then later
      else some a

  abbrev take_free : Manager → Error → Option Allocation → Manager × Result Error Allocation
  take_free m e none = (m, err e)
  take_free m e (some a) = (record m { used = add (allocation_key a) m.used }, ok a)

  unfoldable pub allocate : Manager → Manager × Result Error Allocation
  unfolding first_free
  allocate m =
      if is_empty m.allowed
      then (m, err none_configured)
      else take_free m none_free (first_free m.used m.allowed)

  -- The loop of `AllocateForIP`: whether the address is configured, and the first free entry.
  first_free_for : Text → List Text → Bool → List Allocation → Bool × Option Allocation
  unfolding is_port_free
  first_free_for ip used configured [] = (configured, none)
  first_free_for ip used configured (a ∷ rest) =
      let other = first_free_for ip used configured rest in
      let later = first_free_for ip used true rest in
      if not (a.ip == ip)
      then other
      else if contains (allocation_key a) used
      then later
      else if not (is_port_free a.ip a.port)
      then later
      else (true, some a)

  unfoldable pub allocate_for_ip : Text → Manager → Manager × Result Error Allocation
  unfolding first_free_for
  allocate_for_ip text m =
      let ip = trim_space text in
      if is_empty ip
      then (m, err ip_required)
      else let (configured, found) = first_free_for ip m.used false m.allowed in
        take_free m (if configured then none_free_for_ip else ip_not_configured) found
