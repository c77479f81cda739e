-- ===== src/Cell/Console/Safety.antt =====
-- No send on a closed channel and no second close, whatever clients do that leave what they joined.
use hive_worker.Base.{
  ℕ, ◌<◌, Text, ◌≡◌, refl, Bool, true, false, Option, none, some, List, [], ◌∷◌, ◌++◌, arith, Dict,
  lookup, insert, erase, lookup-insert, lookup-erase, contains, contains-add, contains-remove,
  remove, add, text_eq, nat_eq, Option-cases, inl, inr,
}
use hive_worker.Cell.{Cell, Chan, Manager}
use hive_worker.Cell.Channel.{try_send_open, close, update}
use hive_worker.Cell.Console.{
  put_cell, trim_console, send_all, broadcast, broadcast_by_id, subscribe_with_history, unsubscribe,
  clear_console,
}

-- A manager and the subscriptions that clients hold: a channel and the cell that it was made for.
pub record System : Type 0 where
  pub manager : Manager
  pub held : Dict ℕ Text

pub data Event : Type 0 where
  said : Text → Text → Event
  joined : Text → Bool → Event
  left : ℕ → Event
  read : ℕ → Event
  cleared : Text → Event
  created : Text → Cell → Event
  deleted : Text → Event

abbrev tail : List Text → List Text
tail [] = []
tail (x ∷ xs) = xs

abbrev hold : Text → Manager → ℕ → Dict ℕ Text → Dict ℕ Text
hold id m ch held = elim (lookup id m.cells) [ none ↦ held | some cell ↦ insert ch id held ]

abbrev pub with_held : Dict ℕ Text → Option Manager → Option System
with_held held none = none
with_held held (some m) = some (record { manager = m; held = held })

-- One event. A client leaves a subscription that it holds, and then holds it no more; a new cell
-- has no subscriber. `none` is a panic.
unfoldable pub step : Event → System → Option System
step (said id line) s = with_held s.held (broadcast_by_id id line s.manager)
step (joined id history) s = some (record {
  manager = (subscribe_with_history id history s.manager).0;
  held = hold id s.manager s.manager.next_channel s.held;
})
step (left ch) s = elim (lookup ch s.held) [
  | none ↦ some s
  | some id ↦ with_held (erase ch s.held) (unsubscribe id ch s.manager)
]
step (read ch) s =
    let c = s.manager.channels ch in
    some (record s {
      manager = record (s.manager) {
        channels = update s.manager.channels ch (record c { buffer = tail c.buffer });
      };
    })
step (cleared id) s = some (record s { manager = (clear_console id s.manager).0 })
step (created id cell) s =
    some (record s { manager = put_cell id (record cell { subscribers = [] }) s.manager })
step (deleted id) s =
    some (record s { manager = record (s.manager) { cells = erase id s.manager.cells } })

unfoldable pub run : List Event → System → Option System
run [] s = some s
run (e ∷ rest) s = elim (step e s) [ none ↦ none | some s' ↦ run rest s' ]

-- A subscriber of a cell is held for that cell, and what is held is open and was made.
pub record IsSafe (s : System) : Type 0 where
  pub registered :
      (id : Text) (cell : Cell) (ch : ℕ)
      → lookup id s.manager.cells ≡ some cell
      → contains ch cell.subscribers ≡ true
      → lookup ch s.held ≡ some id
  pub live :
      (ch : ℕ) (id : Text) → lookup ch s.held ≡ some id → (s.manager.channels ch).closed ≡ false
  pub made : (ch : ℕ) (id : Text) → lookup ch s.held ≡ some id → ch < s.manager.next_channel

-- Sends to open channels leave every channel as open as it was.
pub SameOpen : (ℕ → Chan) → (ℕ → Chan) → Type 0
SameOpen c d = (ch : ℕ) → (d ch).closed ≡ (c ch).closed

pub send_all-SameOpen :
    (line : Text) (chs : List ℕ) (channels : ℕ → Chan)
    → ((ch : ℕ) → contains ch chs ≡ true → (channels ch).closed ≡ false)
    → (channels' : ℕ → Chan) × (send_all line chs channels ≡ some channels')
      × SameOpen channels channels'
unfolding send_all SameOpen
send_all-SameOpen line [] channels h = (channels, refl, λ ch. refl)
send_all-SameOpen line (ch ∷ rest) channels h =
    let (c, sent, is_open) = try_send_open line (channels ch) (h ch (ground arith)) in
    let (channels', done, same) =
      send_all-SameOpen line rest (update channels ch c) (λ i m. ground (arith, h i)) in
    (channels', rw (sent, send_all) done, λ i. ground (arith, same i, h ch))

-- A step without a panic to a safe system.
abbrev pub StaysSafe : Option System → Type 0
StaysSafe none = ⊥
StaysSafe (some s) = IsSafe s

module _ (s : System) (safe : IsSafe s) where
  pub said-StaysSafe : (id line : Text) → StaysSafe (step (said id line) s)
  unfolding step broadcast_by_id SameOpen
  said-StaysSafe id line = elim (Option-cases (lookup id s.manager.cells)) [
    | inl missing ↦ rw (missing, step, broadcast_by_id) safe
    | inr (cell, found) ↦
        let (channels', sent, same) =
          send_all-SameOpen line cell.subscribers s.manager.channels
            (λ ch m. safe.live ch id (safe.registered id cell ch found m)) in
        let cell' = record cell { console = trim_console (cell.console ++ (line ∷ [])) } in
        rw (found, sent, step, with_held, broadcast_by_id, broadcast)
          (record {
            registered = λ i c ch. ground (
              arith,
              safe.registered i c ch,
              safe.registered id cell ch,
              lookup-insert i id cell' s.manager.cells,
            );
            live = λ ch i h. ground (arith, same ch, safe.live ch i);
            made = safe.made;
          })
  ]

  joined-StaysSafe : (id : Text) (history : Bool) → StaysSafe (step (joined id history) s)
  unfolding step subscribe_with_history
  joined-StaysSafe id history = elim (Option-cases (lookup id s.manager.cells)) [
    | inl missing ↦
        rw (missing, step, hold, subscribe_with_history)
          (record {
            registered = safe.registered;
            live = λ i j h. ground (arith, safe.live i j, safe.made i j);
            made = λ i j h. omega (arith, safe.made i j h);
          })
    | inr (cell, found) ↦
        let new = s.manager.next_channel in
        let cell' = record cell { subscribers = add new cell.subscribers } in
        rw (found, step, hold, subscribe_with_history)
          (record {
            registered = λ i c ch. ground (
              arith,
              safe.registered i c ch,
              safe.registered id cell ch,
              safe.made ch i,
              safe.made ch id,
              lookup-insert i id cell' s.manager.cells,
              lookup-insert ch new id s.held,
              contains-add ch new cell.subscribers,
            );
            live = λ i j h. ground (arith, safe.live i j, lookup-insert i new id s.held);
            made = λ i j h. ground (arith, safe.made i j, lookup-insert i new id s.held);
          })
  ]

  left-StaysSafe : (ch : ℕ) → StaysSafe (step (left ch) s)
  unfolding step unsubscribe close
  left-StaysSafe ch = elim (Option-cases (lookup ch s.held)) [
    | inl free ↦ rw (free, step) safe
    | inr (id, mine) ↦ elim (Option-cases (lookup id s.manager.cells)) [
      | inl missing ↦
          rw (mine, missing, step, unsubscribe)
            (record {
              registered = λ i c j. ground (arith, safe.registered i c j, lookup-erase j ch s.held);
              live = λ i j h. ground (arith, safe.live i j, lookup-erase i ch s.held);
              made = λ i j h. ground (arith, safe.made i j, lookup-erase i ch s.held);
            })
      | inr (cell, found) ↦
          let cell' = record cell { subscribers = remove ch cell.subscribers } in
          rw (mine, found, safe.live ch id mine, step, unsubscribe)
            (record {
              registered = λ i c j. ground (
                arith,
                safe.registered i c j,
                safe.registered id cell j,
                lookup-insert i id cell' s.manager.cells,
                lookup-erase j ch s.held,
                contains-remove j ch cell.subscribers,
              );
              live = λ i j h. ground (arith, safe.live i j, lookup-erase i ch s.held);
              made = λ i j h. ground (arith, safe.made i j, lookup-erase i ch s.held);
            })
    ]
  ]

  read-StaysSafe : (ch : ℕ) → StaysSafe (step (read ch) s)
  unfolding step
  read-StaysSafe ch = record {
    registered = safe.registered;
    live = λ i id h. ground (arith, safe.live i id);
    made = safe.made;
  }

  cleared-StaysSafe : (id : Text) → StaysSafe (step (cleared id) s)
  unfolding step clear_console
  cleared-StaysSafe id = elim (Option-cases (lookup id s.manager.cells)) [
    | inl missing ↦ rw (missing, step, clear_console) safe
    | inr (cell, found) ↦
        rw (found, step, clear_console)
          (record {
            registered = λ i c ch. ground (
              arith,
              safe.registered i c ch,
              safe.registered id cell ch,
              lookup-insert i id (record cell { console = [] }) s.manager.cells,
            );
            live = safe.live;
            made = safe.made;
          })
  ]

  created-StaysSafe : (id : Text) (cell : Cell) → StaysSafe (step (created id cell) s)
  unfolding step
  created-StaysSafe id cell = record {
    registered = λ i c ch. ground (
      arith,
      safe.registered i c ch,
      lookup-insert i id (record cell { subscribers = [] }) s.manager.cells,
    );
    live = safe.live;
    made = safe.made;
  }

  deleted-StaysSafe : (id : Text) → StaysSafe (step (deleted id) s)
  unfolding step
  deleted-StaysSafe id = record {
    registered =
        λ i c ch. ground (arith, safe.registered i c ch, lookup-erase i id s.manager.cells);
    live = safe.live;
    made = safe.made;
  }

pub step-StaysSafe : (e : Event) (s : System) → IsSafe s → StaysSafe (step e s)
step-StaysSafe (said id line) s safe = said-StaysSafe s safe id line
step-StaysSafe (joined id history) s safe = joined-StaysSafe s safe id history
step-StaysSafe (left ch) s safe = left-StaysSafe s safe ch
step-StaysSafe (read ch) s safe = read-StaysSafe s safe ch
step-StaysSafe (cleared id) s safe = cleared-StaysSafe s safe id
step-StaysSafe (created id cell) s safe = created-StaysSafe s safe id cell
step-StaysSafe (deleted id) s safe = deleted-StaysSafe s safe id

pub StaysSafe-some : (o : Option System) → StaysSafe o → (s : System) × (o ≡ some s) × IsSafe s
StaysSafe-some none h = absurd h
StaysSafe-some (some s) h = (s, refl, h)

-- From a safe system no sequence of broadcasts, subscriptions, departures, reads, clearings,
-- creations and deletions of cells panics by a send on a closed channel or a second close, and the
-- system stays safe.
pub run-IsSafe :
    (events : List Event) (s : System)
    → IsSafe s
    → (s' : System) × (run events s ≡ some s') × IsSafe s'
unfolding run
run-IsSafe [] s safe = (s, refl, safe)
run-IsSafe (e ∷ rest) s safe =
    let (t, stepped, safe_t) = StaysSafe-some (step e s) (step-StaysSafe e s safe) in
    let (s', done, safe_s') = run-IsSafe rest t safe_t in (s', rw (stepped, run) done, safe_s')
