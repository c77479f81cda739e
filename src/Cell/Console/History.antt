-- ===== src/Cell/Console/History.antt =====
-- The console holds the last three hundred lines that were broadcast, and every subscriber gets a
-- line at most once, in order.
use hive_worker.Base.{
  ℕ, ◌≤◌, Text, ◌≡◌, refl, ◌∙◌, sym, ap, some, List, [], ◌∷◌, ◌++◌, arith, lookup,
  lookup-insert_self, length, drop, last_elements, last_elements-append, last_elements_all,
  length-last_elements-le, subst, text_eq, map, Bool-cases, inl, inr, ltb, ok,
}
use mathlib.Core.List.{append_assoc, append-nil}
use hive_worker.Cell.{Cell, Chan}
use hive_worker.Cell.Console.{
  console, trim_console, max_lines, broadcast, broadcast_by_id, put_cell,
}
use hive_worker.Cell.Console.Safety.{
  System, IsSafe, said, step, run, StaysSafe, said-StaysSafe, with_held, send_all-SameOpen,
}

pub trim_console-last_elements :
    (lines : List Text) → trim_console lines ≡ last_elements max_lines lines
unfolding trim_console
trim_console-last_elements lines = elim (Bool-cases (ltb max_lines (length lines))) [
  | inl over ↦ rw over
  | inr within ↦ rw within (ap (λ k. drop k lines) {x = 0} (ground arith))
]

-- A broadcast to a cell of a safe system stores the line in its history, and nothing else of the
-- cells changes.
said_lem :
    (s : System) (id line : Text) (cell : Cell)
    → IsSafe s
    → lookup id s.manager.cells ≡ some cell
    → (channels : ℕ → Chan) × (step (said id line) s
        ≡ some (record {
          manager =
              record (put_cell id
                (record cell { console = trim_console (cell.console ++ (line ∷ [])) })
                s.manager) { channels = channels };
          held = s.held;
        }))
unfolding step broadcast_by_id broadcast
said_lem s id line cell safe found =
    let (channels, sent, same) =
      send_all-SameOpen line cell.subscribers s.manager.channels
        (λ ch m. safe.live ch id (safe.registered id cell ch found m)) in
    (channels, rw (found, sent, step, with_held, broadcast_by_id, broadcast))

-- After any lines for a cell of a safe system with at most three hundred lines of history, Console
-- returns the last three hundred of the old and the new lines, in order.
pub console-run_said :
    (s : System) (id : Text) (cell : Cell) (lines : List Text)
    → IsSafe s
    → lookup id s.manager.cells ≡ some cell
    → length cell.console ≤ max_lines
    → (s' : System) × (run (map (said id) lines) s ≡ some s')
      × (console id s'.manager ≡ ok (last_elements max_lines (cell.console ++ lines)))
unfolding run console
console-run_said s id cell [] safe found short = (
  s,
  refl,
  rw (found, console)
      (ap ok (
        sym (
          ap (last_elements max_lines) (append-nil cell.console)
          ∙ last_elements_all max_lines cell.console short))),
)
console-run_said s id cell (line ∷ rest) safe found short =
    let (channels, stepped) = said_lem s id line cell safe found in
    let cell' = record cell { console = trim_console (cell.console ++ (line ∷ [])) } in
    let t : System = record {
      manager = record (put_cell id cell' s.manager) { channels = channels };
      held = s.held;
    } in
    let stored = trim_console-last_elements (cell.console ++ (line ∷ [])) in
    let (s', done, shown) =
      console-run_said t id cell' rest (subst StaysSafe stepped (said-StaysSafe s safe id line))
        (lookup-insert_self id cell' s.manager.cells)
        (rw stored (length-last_elements-le max_lines (cell.console ++ (line ∷ [])))) in
    (
      s',
      rw (stepped, run) done,
      shown
          ∙ ap ok (
              ap (λ l. last_elements max_lines (l ++ rest)) stored
              ∙ last_elements-append max_lines (cell.console ++ (line ∷ [])) rest
              ∙ ap (last_elements max_lines) (append_assoc cell.console (line ∷ []) rest)),
    )
