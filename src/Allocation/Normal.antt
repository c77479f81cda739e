-- ===== src/Allocation/Normal.antt =====
-- Normalising keeps the valid addresses, trims them, and drops repetitions.
use hive_worker.Base.{
  Text, ◌≡◌, refl, true, false, List, [], ◌∷◌, arith, All, contains, add, contains-add, text_eq,
  NoRepeat, ap, if◌then◌else◌,
}
use hive_worker.Go.Text.{trim_space}
use hive_worker.Go.Text.Trim.{trim_space_idem}
use hive_worker.Allocation.{
  Allocation, allocation_key, keys, normalise_allocation, valid_allocation, normalise_from,
  normalise_allocations,
}

-- Trimmed, with a host and a port from 1 to 65535.
pub record IsNormal (a : Allocation) : Type 0 where
  pub trimmed : trim_space a.ip ≡ a.ip
  pub valid : valid_allocation a ≡ true

-- Normal addresses, none of them twice.
abbrev pub IsNormalList : List Allocation → Type 0
IsNormalList xs = All IsNormal xs × NoRepeat (keys xs)

-- The keys of the valid addresses of a list, in order and with repetitions.
abbrev pub valid_keys : List Allocation → List Text
valid_keys [] = []
valid_keys (a ∷ rest) =
    let later = valid_keys rest in
    if valid_allocation (normalise_allocation a)
    then allocation_key (normalise_allocation a) ∷ later
    else later

normalise_allocation-trimmed :
    (a : Allocation) → trim_space (normalise_allocation a).ip ≡ (normalise_allocation a).ip
unfolding normalise_allocation
normalise_allocation-trimmed a = trim_space_idem a.ip

pub normalise_allocation_fixed : (a : Allocation) → IsNormal a → normalise_allocation a ≡ a
unfolding normalise_allocation
normalise_allocation_fixed a n = ap (λ h. record a { ip = h }) n.trimmed

normalise_from-IsNormal :
    (seen : List Text) (xs : List Allocation) → All IsNormal (normalise_from seen xs)
unfolding normalise_from
normalise_from-IsNormal seen [] = tt
normalise_from-IsNormal seen (a ∷ rest) = ground (
  arith,
  normalise_allocation-trimmed a,
  normalise_from-IsNormal seen rest,
  normalise_from-IsNormal (add (allocation_key (normalise_allocation a)) seen) rest,
)

contains-normalise_from :
    (key : Text) (seen : List Text) (xs : List Allocation)
    → contains key (keys (normalise_from seen xs))
      ≡ (if contains key seen then false else contains key (valid_keys xs))
unfolding normalise_from
contains-normalise_from key seen [] = ground arith
contains-normalise_from key seen (a ∷ rest) = ground (
  arith,
  contains-normalise_from key seen rest,
  contains-normalise_from key (add (allocation_key (normalise_allocation a)) seen) rest,
  contains-add key (allocation_key (normalise_allocation a)) seen,
)

normalise_from-NoRepeat :
    (seen : List Text) (xs : List Allocation) → NoRepeat (keys (normalise_from seen xs))
unfolding normalise_from
normalise_from-NoRepeat seen [] = tt
normalise_from-NoRepeat seen (a ∷ rest) =
    let key = allocation_key (normalise_allocation a) in
    ground (
      arith,
      normalise_from-NoRepeat seen rest,
      normalise_from-NoRepeat (add key seen) rest,
      contains-normalise_from key (add key seen) rest,
      contains-add key key seen,
    )

abbrev Disjoint : List Text → List Text → Type 0
Disjoint xs seen = (key : Text) → contains key xs ≡ true → contains key seen ≡ false

Disjoint-add :
    (first : Text) (rest seen : List Text)
    → contains first rest ≡ false
    → Disjoint (first ∷ rest) seen
    → Disjoint rest (add first seen)
Disjoint-add first rest seen fresh d key h = ground (arith, d key, contains-add key first seen)

normalise_from_fixed :
    (seen : List Text) (xs : List Allocation)
    → IsNormalList xs
    → Disjoint (keys xs) seen
    → normalise_from seen xs ≡ xs
unfolding normalise_from
normalise_from_fixed seen [] n d = refl
normalise_from_fixed seen (a ∷ rest) ((normal, normals), (fresh, unique)) d =
    let key = allocation_key a in
    rw (normalise_allocation_fixed a normal) (
      ground (
        arith,
        normal.valid,
        d key,
        normalise_from_fixed (add key seen) rest (normals, unique)
            (Disjoint-add key (keys rest) seen fresh d),
      ))

-- The result is normal: its addresses are trimmed and valid, and none is listed twice.
pub normalise_allocations-IsNormalList :
    (xs : List Allocation) → IsNormalList (normalise_allocations xs)
unfolding normalise_allocations
normalise_allocations-IsNormalList xs =
    (normalise_from-IsNormal [] xs, normalise_from-NoRepeat [] xs)

-- An address is among the normalised list exactly if it is among the valid addresses of the input.
pub contains-normalise_allocations :
    (key : Text) (xs : List Allocation)
    → contains key (keys (normalise_allocations xs)) ≡ contains key (valid_keys xs)
unfolding normalise_allocations
contains-normalise_allocations key xs = contains-normalise_from key [] xs

-- A normal list is left as it is.
pub normalise_allocations_fixed :
    (xs : List Allocation) → IsNormalList xs → normalise_allocations xs ≡ xs
unfolding normalise_allocations
normalise_allocations_fixed xs n = normalise_from_fixed [] xs n (λ _ _. refl)
