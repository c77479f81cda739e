-- ===== src/Cell/Request/Addresses.antt =====
-- internal/cell/storage.go: which additional addresses a request may have.
use hive_worker.Base.{
  Text, ◌≡◌, ◌≢◌, ◌↔◌, refl, sym, ap, ◌∙◌, Bool, false, List, [], ◌∷◌, map, All, contains, ◌==◌,
  text_eq, Result, ok, err, Result-cases, Bool-cases, inl, inr, arith, if◌then◌else◌, ◌>>=◌,
}
use hive_worker.Go.Text.{is_empty, trim_space}
use hive_worker.Go.Int.{pos, leb_ℤ}
use hive_worker.Allocation.{Allocation, allocation_key}
use hive_worker.Allocation.Keys.{SameAddress, allocation_key_iff}
use hive_worker.Cell.{Error}
use hive_worker.Cell.Request.{address_key, lacks_address, normalise_additional}

-- A host and a positive port.
abbrev pub IsAddress : Allocation → Type 0
IsAddress a = (a.ip ≢ []) × (leb_ℤ a.port (pos 0) ≡ false)

-- An address without spaces round its host.
abbrev pub bare : Allocation → Allocation
bare a = record { ip = trim_space a.ip; port = a.port }

-- Addresses that differ from the primary one, from those before them and from each other.
abbrev pub AreAdditional : Allocation → List Allocation → List Allocation → Type 0
AreAdditional primary seen [] = Unit
AreAdditional primary seen (a ∷ rest) =
    IsAddress a
    × (¬ SameAddress a primary)
    × All (λ b. ¬ SameAddress a b) seen
    × AreAdditional primary (a ∷ seen) rest

pub is_empty_iff : (s : Text) → (is_empty s ≡ false) ↔ (s ≢ [])
is_empty_iff [] = (λ h. absurd (cc), λ h. absurd (h refl))
is_empty_iff (c ∷ s) = (λ h e. cc, λ h. refl)

pub lacks_address_iff : (a : Allocation) → (lacks_address a ≡ false) ↔ IsAddress a
lacks_address_iff a = (
  λ h. ((is_empty_iff a.ip).0 (ground arith), ground arith),
  λ (ip, port). let full = (is_empty_iff a.ip).1 ip in ground arith,
)

address_key_iff : (a b : Allocation) → (address_key a ≡ address_key b) ↔ SameAddress a b
unfolding address_key allocation_key
address_key_iff a b = allocation_key_iff a b

differs_iff : (a b : Allocation) → ((address_key a == address_key b) ≡ false) ↔ (¬ SameAddress a b)
differs_iff a b = (
  λ h same. absurd (let e = (address_key_iff a b).1 same in ground arith),
  λ h. elim (Bool-cases (address_key a == address_key b)) [
    | inl same ↦ absurd (h ((address_key_iff a b).0 (ground arith)))
    | inr other ↦ other
  ],
)

contains-keys :
    (a : Allocation) (seen : List Allocation)
    → (contains (address_key a) (map address_key seen) ≡ false) ↔ All (λ b. ¬ SameAddress a b) seen
contains-keys a [] = (λ _. tt, λ _. refl)
contains-keys a (b ∷ seen) = (
  λ h. ((differs_iff a b).0 (ground arith), (contains-keys a seen).0 (ground arith)),
  λ (other, rest).
      let e = (differs_iff a b).1 other in let f = (contains-keys a seen).1 rest in ground arith,
)

-- Three refusals and what follows where none of them applies.
checks :
    (bad same again : Bool) (e f g : Error) (later : Result Error (List Allocation))
    (items : List Allocation)
    → ((if bad then err e else if same then err f else if again then err g else later) ≡ ok items)
      ↔ ((bad ≡ false) × (same ≡ false) × (again ≡ false) × (later ≡ ok items))
checks bad same again e f g later items = ground arith

pub normalise_additional_iff :
    (primary : Allocation) (seen xs items : List Allocation)
    → (normalise_additional (address_key primary) (map address_key seen) xs ≡ ok items)
      ↔ ((items ≡ map bare xs) × AreAdditional primary seen (map bare xs))
unfolding normalise_additional
normalise_additional_iff primary seen [] items = (λ h. (ground arith, tt), λ (e, _). ground arith)
normalise_additional_iff primary seen (a ∷ rest) items =
    let item = bare a in
    let more = normalise_additional (address_key primary) (map address_key (item ∷ seen)) rest in
    let steps =
      checks (lacks_address item) (address_key item == address_key primary)
        (contains (address_key item) (map address_key seen)) _ _ _
        (more >>= λ later. ok (item ∷ later)) items in
    (
      λ h.
          let (full, other, fresh, later) = steps.0 h in
          elim (Result-cases more) [
            | inr (e, failed) ↦ absurd (ground arith)
            | inl (ys, done) ↦
                let (same, extra) =
                  (normalise_additional_iff primary (item ∷ seen) rest ys).0 done in
                let whole : items ≡ item ∷ ys = ground arith in
                (
                  whole ∙ ap (λ l. item ∷ l) same,
                  (
                    (lacks_address_iff item).0 full,
                    (differs_iff item primary).0 other,
                    (contains-keys item seen).0 fresh,
                    extra,
                  ),
                )
          ],
      λ (same, (address, other, fresh, extra)).
          let done =
            (normalise_additional_iff primary (item ∷ seen) rest (map bare rest)).1 (refl, extra) in
          steps.1 (
            (lacks_address_iff item).1 address,
            (differs_iff item primary).1 other,
            (contains-keys item seen).1 fresh,
            ap (λ m. m >>= λ later. ok (item ∷ later)) done ∙ ap ok (sym same),
          ),
    )
