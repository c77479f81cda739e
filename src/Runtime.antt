-- ===== src/Runtime.antt =====
-- internal/runtime/process/runtime.go: cells as processes of the operating system.
-- `cmd` is the handle of a command, a number that is never given twice; the mutex makes each
-- operation one step, and whether the system can start a command, write to its input or kill it
-- are arguments. What the processes print is not modelled here.
pub mod Events
pub mod Exact
use hive_worker.Base.{
  ℕ, Text, Bool, true, false, Option, none, some, [], ◌++◌, Dict, lookup, insert, erase, text_eq,
  if◌then◌else◌, Result, ok, err,
}
use hive_worker.Go.Text.{codes}

pub record RunningProcess : Type 0 where
  pub cmd : ℕ
  pub started_at : ℕ

pub record ProcessRuntime : Type 0 where
  pub processes : Dict Text RunningProcess

pub data Error : Type 0 where
  already_running : Error
  not_running : Error
  system_failure : Error

unfoldable pub new_runtime : ProcessRuntime
new_runtime = record { processes = [] }

-- `Start` of a command whose handle is `cmd`; what the system refuses leaves no process.
unfoldable pub start :
    Text → Bool → ℕ → ℕ → ProcessRuntime → ProcessRuntime × Result Error (Unit {0})
start id fails cmd now r = elim (lookup id r.processes) [
  | some _ ↦ (r, err already_running)
  | none ↦ if fails then (r, err system_failure) else (
    record r { processes = insert id (record { cmd = cmd; started_at = now }) r.processes },
    ok tt,
  )
]

-- What follows `Wait` in the goroutine of a process.
unfoldable pub forget : Text → ProcessRuntime → ProcessRuntime
forget id r = record r { processes = erase id r.processes }

-- The command that `Stop` kills.
unfoldable pub stop : Text → ProcessRuntime → Result Error ℕ
stop id r = elim (lookup id r.processes) [ none ↦ err not_running | some running ↦ ok running.cmd ]

-- The command whose input `SendCommand` writes to, and the bytes.
unfoldable pub send_command : Text → Text → ProcessRuntime → Result Error (ℕ × Text)
send_command id command r = elim (lookup id r.processes) [
  | none ↦ err not_running
  | some running ↦ ok (running.cmd, command ++ codes "\n")
]

unfoldable pub is_running : Text → ProcessRuntime → Bool
is_running id r = elim (lookup id r.processes) [ none ↦ false | some _ ↦ true ]

unfoldable pub started_at : Text → ProcessRuntime → Option ℕ
started_at id r = elim (lookup id r.processes) [
  | none ↦ none
  | some running ↦ some running.started_at
]
