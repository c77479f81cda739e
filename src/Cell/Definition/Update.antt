-- ===== src/Cell/Definition/Update.antt =====
-- internal/cell/update.go: what `UpdateDefinition` does on every branch.
use hive_worker.Base.{
  Text, ◌≡◌, ◌≢◌, ◌↔◌, ◌⊎◌, refl, sym, ap, ◌∙◌, Bool, false, not, ◌&&◌, ◌||◌, Option, some, none,
  List, [], ◌∷◌, map, lookup, insert, contains, text_eq, Result, ok, err, Result-cases,
  Option-cases, Bool-cases, inl, inr, arith, fail_if, ◌>>◌,
}
use hive_worker.Go.Text.{trim_space, is_empty}
use hive_worker.Go.Json.{Fields}
use hive_worker.Allocation
use hive_worker.Allocation.{Allocation, replace_reservations}
use hive_worker.Allocation.Normal.{valid_keys}
use hive_worker.Allocation.Reserve.{contains-replace_reservations, contains-there_and_back}
use hive_worker.Cell.{Cell, Error}
use hive_worker.Cell.Request.{
  UpdateCellDefinitionRequest, trim_update_request, cell_allocations, lacks_address, address_key,
  normalise_additional, normalise_additional_allocations,
}
use hive_worker.Cell.Request.Addresses.{
  bare, IsAddress, AreAdditional, lacks_address_iff, normalise_additional_iff, is_empty_iff,
}
use hive_worker.Cell.Storage.{World, Saving, written, untouched, spoilt, save, config_name}
use hive_worker.Cell.Definition.{update_definition, check_update, replace_definition, is_none}

-- What a request asks for, written out: fields that are not empty, the data of a comb, an address,
-- and further addresses that differ from it and from each other.
abbrev pub IsAccepted : Text → UpdateCellDefinitionRequest → Type 0
IsAccepted id r =
    (trim_space id ≢ [])
    × (trim_space r.name ≢ [])
    × (trim_space r.comb ≢ [])
    × ((fields : Fields) × (r.comb_data ≡ some fields))
    × IsAddress (bare r.allocation)
    × AreAdditional (bare r.allocation) [] (map bare r.additional_allocations)

-- The cell with the definition of a request.
abbrev pub defined : UpdateCellDefinitionRequest → Cell → Cell
defined r before = record {
  id = before.id;
  name = trim_space r.name;
  dir = before.dir;
  created_at = before.created_at;
  status = before.status;
  comb = trim_space r.comb;
  comb_data = r.comb_data;
  variables = r.variables;
  allocation = bare r.allocation;
  additional_allocations = map bare r.additional_allocations;
  limits = r.limits;
  feature_limits = r.feature_limits;
  docker = record { image = trim_space r.docker.image };
  startup = record { command = trim_space r.startup.command };
  console = before.console;
  subscribers = before.subscribers;
  lock = before.lock;
}

checks :
    (a b c d f : Bool) (e1 e2 e3 e4 e5 : Error) (later : Result Error (List Allocation))
    (items : List Allocation)
    → ((fail_if a e1
          >> (fail_if b e2 >> (fail_if c e3 >> (fail_if d e4 >> (fail_if f e5 >> later)))))
        ≡ ok items)
      ↔ ((a ≡ false) × (b ≡ false) × (c ≡ false) × (d ≡ false) × (f ≡ false) × (later ≡ ok items))
checks a b c d f e1 e2 e3 e4 e5 later items = ground arith

not_both : {e : Error} {items : List Allocation} → err e ≡ ok items → ⊥
not_both h = absurd (cc)

is_none_iff : (o : Option Fields) → (is_none o ≡ false) ↔ ((fields : Fields) × (o ≡ some fields))
is_none_iff none = (λ h. absurd (cc), λ (f, h). absurd (cc))
is_none_iff (some f) = (λ h. (f, refl), λ h. refl)

check_update_iff :
    (id : Text) (r : UpdateCellDefinitionRequest) (items : List Allocation)
    → (check_update (trim_space id) (trim_update_request r) ≡ ok items)
      ↔ ((items ≡ map bare r.additional_allocations) × IsAccepted id r)
unfolding check_update trim_update_request normalise_additional_allocations
check_update_iff id r items =
    let steps =
      checks (is_empty (trim_space id)) (is_empty (trim_space r.name))
        (is_empty (trim_space r.comb)) (is_none r.comb_data) (lacks_address (bare r.allocation)) _ _
        _ _ _ (normalise_additional (address_key (bare r.allocation)) [] r.additional_allocations)
        items in
    let extra = normalise_additional_iff (bare r.allocation) [] r.additional_allocations items in
    (
      λ h.
          let (a, b, c, d, f, later) = steps.0 h in
          let (same, fresh) = extra.0 later in
          (
            same,
            (
              (is_empty_iff (trim_space id)).0 a,
              (is_empty_iff (trim_space r.name)).0 b,
              (is_empty_iff (trim_space r.comb)).0 c,
              (is_none_iff r.comb_data).0 d,
              (lacks_address_iff (bare r.allocation)).0 f,
              fresh,
            ),
          ),
      λ (same, (a, b, c, d, f, fresh)). steps.1 (
        (is_empty_iff (trim_space id)).1 a,
        (is_empty_iff (trim_space r.name)).1 b,
        (is_empty_iff (trim_space r.comb)).1 c,
        (is_none_iff r.comb_data).1 d,
        (lacks_address_iff (bare r.allocation)).1 f,
        extra.1 (same, fresh),
      ),
    )

module _ {Bytes : Type 0} (marshal : Cell → Bytes) (is_running : Text → Bool) (id : Text)
    (r : UpdateCellDefinitionRequest) (saving : Saving Bytes) (w : World Bytes) where
  -- The cell was there and did not run, and the request was accepted; in memory it has the new
  -- definition, and of the rest of the manager at most the reservations have changed.
  abbrev pub IsRedefined : Cell → World Bytes → Type 0
  IsRedefined before after =
      IsAccepted id r
      × (lookup (trim_space id) w.manager.cells ≡ some before)
      × (is_running (trim_space id) ≡ false)
      × ((reserved : List Text) × (after.manager ≡ record w.manager {
        cells = insert (trim_space id) (defined r before) w.manager.cells;
        alloc_manager = record w.manager.alloc_manager { used = reserved };
      }))
      × (after.directories ≡ w.directories)

  -- Each key that the new addresses have is reserved, or was and is not that of an old one.
  abbrev pub IsExchanged : Cell → Allocation.Manager → Type 0
  IsExchanged before after =
      (key : Text)
      → contains key after.used ≡ (
          contains key (valid_keys (map bare (r.allocation ∷ r.additional_allocations)))
          || (not (contains key (valid_keys (before.allocation ∷ before.additional_allocations)))
              && contains key w.manager.alloc_manager.used))

  -- The exchange and the exchange back: each old key is reserved, and a key that was and is not new.
  abbrev pub IsTakenBack : Cell → Allocation.Manager → Type 0
  IsTakenBack before after =
      (key : Text)
      → contains key after.used ≡ (
          contains key (valid_keys (before.allocation ∷ before.additional_allocations))
          || (not (contains key (valid_keys (map bare (r.allocation ∷ r.additional_allocations))))
              && contains key w.manager.alloc_manager.used))

  -- What `UpdateDefinition` did, by its answer.
  abbrev pub Outcome : World Bytes × Result Error Cell → Type 0
  Outcome (after, ok cell) =
      (before : Cell) × IsRedefined before after
      × (cell ≡ defined r before)
      × (after.configs ≡ insert (config_name before.id) (marshal (defined r before)) w.configs)
      × IsExchanged before after.manager.alloc_manager
  Outcome (after, err e) =
      ((after ≡ w)
        × ((before : Cell)
            → lookup (trim_space id) w.manager.cells ≡ some before
            → is_running (trim_space id) ≡ false
            → ¬ IsAccepted id r))
      ⊎ ((before : Cell) × IsRedefined before after
          × (saving ≢ written)
          × IsTakenBack before after.manager.alloc_manager)

  replace_definition-Outcome :
      (before : Cell)
      → IsAccepted id r
      → lookup (trim_space id) w.manager.cells ≡ some before
      → is_running (trim_space id) ≡ false
      → (way : Saving Bytes) → saving ≡ way
      → Outcome (replace_definition marshal (trim_space id) before (defined r before) way w)
  unfolding save replace_reservations cell_allocations
  replace_definition-Outcome before accepted found offline written e = (
    before,
    (accepted, found, offline, (_, refl), refl),
    refl,
    refl,
    λ key.
        contains-replace_reservations (cell_allocations before)
          (cell_allocations (defined r before)) w.manager.alloc_manager key,
  )
  replace_definition-Outcome before accepted found offline untouched e = inr (
    before,
    (accepted, found, offline, (_, refl), refl),
    (λ p. absurd (ground arith)),
    λ key.
        contains-there_and_back (cell_allocations before) (cell_allocations (defined r before))
          w.manager.alloc_manager key,
  )
  replace_definition-Outcome before accepted found offline (spoilt text) e = inr (
    before,
    (accepted, found, offline, (_, refl), refl),
    (λ p. absurd (ground arith)),
    λ key.
        contains-there_and_back (cell_allocations before) (cell_allocations (defined r before))
          w.manager.alloc_manager key,
  )

  -- UpdateDefinition succeeds for a stopped cell that exists and a request with an id, a name, a
  -- comb, its data, an address and distinct further addresses, if the cell can be written; then the
  -- cell has each field of the request, in memory and on the disk, keeping its id, directory, time,
  -- status, console and lock, and its addresses are exchanged. Where it fails, either nothing
  -- changed, and one of these conditions does not hold, or the cell could not be written: then it
  -- has the new definition in memory, and its addresses were exchanged there and back.
  pub update_definition_lem : Outcome (update_definition marshal is_running id r saving w)
  unfolding update_definition trim_update_request
  update_definition_lem =
      elim (Result-cases (check_update (trim_space id) (trim_update_request r))) [
        | inr (e, failed) ↦
            rw (failed, update_definition)
              (inl (
                refl,
                λ before found offline accepted.
                    not_both (sym failed ∙ (check_update_iff id r _).1 (refl, accepted)),
              ))
        | inl (additional, checked) ↦
            let (same, accepted) = (check_update_iff id r additional).0 checked in
            rw (checked ∙ ap ok same, update_definition)
              (elim (Option-cases (lookup (trim_space id) w.manager.cells)) [
                | inl absent ↦
                    rw (absent, update_definition)
                      (inl (refl, λ before found. absurd (ground arith)))
                | inr (before, found) ↦
                    rw (found, update_definition)
                      (elim (Bool-cases (is_running (trim_space id))) [
                        | inl running ↦
                            rw running (inl (refl, λ other there offline. absurd (ground arith)))
                        | inr offline ↦
                            rw offline
                              (replace_definition-Outcome before accepted found offline saving refl)
                      ])
              ])
      ]
