-- ===== src/Runtime/Events.antt =====
-- internal/runtime/process/runtime.go: the processes, the goroutines that wait for them, and the
-- steps by which they interleave.
use hive_worker.Base.{
  ℕ, ◌+◌, Text, Bool, Option, none, some, List, [], ◌∷◌, Dict, lookup, insert, erase, text_eq,
  nat_eq, if◌then◌else◌, Result, ok, err, contains, remove,
}
use hive_worker.Runtime.{ProcessRuntime, Error, new_runtime, start, forget}

-- `waiting` holds the goroutines that have not yet forgotten their process, by the command each
-- waits for, with the id of its cell; `alive` holds the commands that run.
pub record System : Type 0 where
  pub runtime : ProcessRuntime
  pub waiting : Dict ℕ Text
  pub alive : List ℕ
  pub next : ℕ

abbrev pub nothing_runs : System
nothing_runs = record { runtime = new_runtime; waiting = []; alive = []; next = 0 }

pub data Event : Type 0 where
  -- Somebody calls `Start`; the system may refuse.
  starts : Text → Bool → ℕ → Event
  -- A command ends, by itself or killed.
  ends : ℕ → Event
  -- The goroutine of a command goes on after `Wait`, which needs that the command has ended.
  reaped : ℕ → Event

abbrev launched : Text → System → ProcessRuntime × Result Error (Unit {0}) → System
launched id s (r, err e) = record s { runtime = r }
launched id s (r, ok _) = record {
  runtime = r;
  waiting = insert s.next id s.waiting;
  alive = s.next ∷ s.alive;
  next = s.next + 1;
}

abbrev finished : ℕ → System → Option Text → System
finished cmd s none = s
finished cmd s (some id) = record s { runtime = forget id s.runtime; waiting = erase cmd s.waiting }

unfoldable pub happen : Event → System → System
happen (starts id fails now) s = launched id s (start id fails s.next now s.runtime)
happen (ends cmd) s = record s { alive = remove cmd s.alive }
happen (reaped cmd) s = if contains cmd s.alive then s else finished cmd s (lookup cmd s.waiting)

unfoldable pub run : List Event → System → System
run [] s = s
run (e ∷ rest) s = run rest (happen e s)
