-- ===== src/Cell/Console.antt =====
-- internal/cell/console.go: the console history of a cell and its subscribers.
pub mod History
pub mod Subscriber
pub mod Safety
use hive_worker.Base.{
  ℕ, suc, ◌+◌, ◌-◌, Text, Bool, true, false, Option, none, some, List, [], ◌∷◌, ◌++◌, length, drop,
  ltb, Result, ok, err, if◌then◌else◌, lookup, insert, remove, add, text_eq, nat_eq,
}
use hive_worker.Cell.{Cell, Chan, Manager, Error, cell_not_found}
use hive_worker.Cell.Channel.{new_chan, capacity, try_send, close, update}

abbrev pub put_cell : Text → Cell → Manager → Manager
put_cell id cell m = record m { cells = insert id cell m.cells }

unfoldable pub console : Text → Manager → Result Error (List Text)
console id m = elim (lookup id m.cells) [ none ↦ err cell_not_found | some cell ↦ ok cell.console ]

unfoldable pub clear_console : Text → Manager → Manager × Result Error (Unit {0})
clear_console id m = elim (lookup id m.cells) [
  | none ↦ (m, err cell_not_found)
  | some cell ↦ (put_cell id (record cell { console = [] }) m, ok tt)
]

abbrev pub max_lines : ℕ
max_lines = 300

unfoldable pub trim_console : List Text → List Text
trim_console lines =
    if ltb max_lines (length lines) then drop (length lines - max_lines) lines else lines

-- The loop over the subscribers of `broadcast`. `none` is a panic: a send on a closed channel.
unfoldable pub send_all : Text → List ℕ → (ℕ → Chan) → Option (ℕ → Chan)
send_all line [] channels = some channels
send_all line (ch ∷ rest) channels = elim (try_send line (channels ch)) [
  | none ↦ none
  | some c ↦ send_all line rest (update channels ch c)
]

unfoldable pub broadcast : Text → Text → Cell → Manager → Option Manager
unfolding trim_console
broadcast id line cell m = elim (send_all line cell.subscribers m.channels) [
  | none ↦ none
  | some channels ↦
      some
        (record (put_cell id (record cell { console = trim_console (cell.console ++ (line ∷ [])) })
          m) { channels = channels })
]

-- `broadcastByID` of lifecycle.go
unfoldable pub broadcast_by_id : Text → Text → Manager → Option Manager
unfolding broadcast
broadcast_by_id id line m = elim (lookup id m.cells) [
  | none ↦ some m
  | some cell ↦ broadcast id line cell m
]

-- The history loop of `SubscribeWithHistory`: it stops at the first line that does not fit.
unfoldable pub fill : List Text → List Text → List Text
fill [] buffer = buffer
fill (line ∷ rest) buffer =
    let more = fill rest (buffer ++ (line ∷ [])) in
    if ltb (length buffer) capacity then more else buffer

unfoldable pub subscribe_with_history : Text → Bool → Manager → Manager × Result Error ℕ
unfolding fill
subscribe_with_history id include_history m =
    let ch = m.next_channel in
    elim (lookup id m.cells) [
      | none ↦ (
        record m {
          channels = update m.channels ch (record new_chan { closed = true });
          next_channel = ch + 1;
        },
        err cell_not_found,
      )
      | some cell ↦ (
        record (put_cell id (record cell { subscribers = add ch cell.subscribers }) m) {
          channels =
              update m.channels ch
                (record new_chan { buffer = if include_history then fill cell.console [] else [] });
          next_channel = ch + 1;
        },
        ok ch,
      )
    ]

unfoldable pub subscribe : Text → Manager → Manager × Result Error ℕ
unfolding subscribe_with_history
subscribe id = subscribe_with_history id true

-- `none` is a panic: the channel was closed before.
unfoldable pub unsubscribe : Text → ℕ → Manager → Option Manager
unsubscribe id ch m = elim (lookup id m.cells) [
  | none ↦ some m
  | some cell ↦ elim (close (m.channels ch)) [
    | none ↦ none
    | some c ↦
        some (record (put_cell id (record cell { subscribers = remove ch cell.subscribers }) m) {
          channels = update m.channels ch c;
        })
  ]
]
