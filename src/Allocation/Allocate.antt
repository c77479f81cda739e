-- ===== src/Allocation/Allocate.antt =====
-- `Allocate` and `AllocateForIP`: what is handed out, when nothing is, and that nothing is handed
-- out twice.
use hive_worker.Base.{
  Text, ◌≡◌, ◌≢◌, refl, ◌⊎◌, inl, inr, Bool, true, false, List, [], ◌∷◌, ◌++◌, All, contains, add,
  text_eq, Result, ok, err, Option, none, some, Bool-cases, ap,
}
use hive_worker.Go.Text.{is_empty}
use hive_worker.Allocation.{
  Allocation, Error, none_configured, none_free, Manager, allocation_key, is_port_free, first_free,
  take_free, allocate,
}

pub is_empty-eq-nil {ℓ} : {A : Type ℓ} (xs : List A) → is_empty xs ≡ true → xs ≡ []
is_empty-eq-nil [] h = refl
is_empty-eq-nil (x ∷ xs) h = cc

is_empty-ne-nil : (xs : List Allocation) → is_empty xs ≡ false → xs ≢ []
is_empty-ne-nil [] h = cc
is_empty-ne-nil (x ∷ xs) h = λ e. cc

module _ (can_listen : Text → Bool) where
  -- In use, or its port cannot be bound.
  abbrev pub IsTaken : List Text → Allocation → Type 0
  IsTaken used a =
      (contains (allocation_key a) used ≡ true) ⊎ (is_port_free can_listen a.ip a.port ≡ false)

  abbrev pub IsFree : List Text → Allocation → Type 0
  IsFree used a =
      (contains (allocation_key a) used ≡ false) × (is_port_free can_listen a.ip a.port ≡ true)

  -- `a` is the first entry of the list that satisfies `P`, those before it satisfying `Q`.
  pub record IsFirst (P Q : Allocation → Type 0) (xs : List Allocation) (a : Allocation)
      : Type 0 where
    pub before : List Allocation
    pub after : List Allocation
    pub place : xs ≡ before ++ (a ∷ after)
    pub found : P a
    pub passed : All Q before

  pub IsFirst-cons :
      {P Q : Allocation → Type 0} {xs : List Allocation} {a : Allocation} (b : Allocation)
      → Q b
      → IsFirst P Q xs a
      → IsFirst P Q (b ∷ xs) a
  IsFirst-cons b q f = record {
    before = b ∷ f.before;
    after = f.after;
    place = ap (◌∷◌ b) f.place;
    found = f.found;
    passed = (q, f.passed);
  }

  pub IsFirst-here :
      {P Q : Allocation → Type 0} (xs : List Allocation) (a : Allocation)
      → P a
      → IsFirst P Q (a ∷ xs) a
  IsFirst-here xs a p = record { before = []; after = xs; place = refl; found = p; passed = tt }

  FirstFree : List Text → List Allocation → Option Allocation → Type 0
  FirstFree used xs none = All (IsTaken used) xs
  FirstFree used xs (some a) = IsFirst (IsFree used) (IsTaken used) xs a

  FirstFree-cons :
      (used : List Text) (xs : List Allocation) (o : Option Allocation) (b : Allocation)
      → IsTaken used b
      → FirstFree used xs o
      → FirstFree used (b ∷ xs) o
  unfolding FirstFree
  FirstFree-cons used xs none b taken h = (taken, h)
  FirstFree-cons used xs (some a) b taken h = IsFirst-cons b taken h

  -- The loop finds the first free entry, and finds none exactly if all are taken.
  first_free_lem :
      (used : List Text) (xs : List Allocation) → FirstFree used xs (first_free can_listen used xs)
  unfolding first_free
  first_free_lem used [] = unfold FirstFree in tt
  first_free_lem used (a ∷ rest) = elim (Bool-cases (contains (allocation_key a) used)) [
    | inl held ↦ rw held (FirstFree-cons used rest _ a (inl held) (first_free_lem used rest))
    | inr open_key ↦ elim (Bool-cases (is_port_free can_listen a.ip a.port)) [
      | inl bound ↦ rw (open_key, bound) (unfold FirstFree in IsFirst-here rest a (open_key, bound))
      | inr busy ↦
          rw (open_key, busy) (FirstFree-cons used rest _ a (inr busy) (first_free_lem used rest))
    ]
  ]

  -- What `Allocate` does.
  pub data Allocated (m m' : Manager) : Result Error Allocation → Type 0 where
    given :
        (a : Allocation)
        → IsFirst (IsFree m.used) (IsTaken m.used) m.allowed a
        → m' ≡ record m { used = add (allocation_key a) m.used }
        → Allocated m m' (ok a)
    nothing_configured : m.allowed ≡ [] → m' ≡ m → Allocated m m' (err none_configured)
    nothing_free :
        m.allowed ≢ [] → All (IsTaken m.used) m.allowed → m' ≡ m → Allocated m m' (err none_free)

  take_free-Allocated :
      (m : Manager) (o : Option Allocation)
      → m.allowed ≢ []
      → FirstFree m.used m.allowed o
      → Allocated m (take_free can_listen m none_free o).0 (take_free can_listen m none_free o).1
  unfolding FirstFree
  take_free-Allocated m none some_entry h = nothing_free some_entry h refl
  take_free-Allocated m (some a) some_entry h = given a h refl

  -- Allocate hands out the first allowed address that is neither in use nor busy and stores it as
  -- in use; it fails only if no address is allowed or all are taken, and then changes nothing.
  pub allocate_lem : (m : Manager) → Allocated m (allocate can_listen m).0 (allocate can_listen m).1
  unfolding allocate
  allocate_lem m = elim (Bool-cases (is_empty m.allowed)) [
    | inl empty ↦ rw empty (nothing_configured (is_empty-eq-nil m.allowed empty) refl)
    | inr some_entry ↦ rw some_entry (
        take_free-Allocated m _ (is_empty-ne-nil m.allowed some_entry)
          (first_free_lem m.used m.allowed))
  ]
