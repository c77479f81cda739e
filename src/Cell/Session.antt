-- ===== src/Cell/Session.antt =====
-- internal/cell/console_sessions.go: tokens that open a console once, within thirty seconds.
-- Times are nanoseconds; the token is the argument that `uuid.NewString` gives.
pub mod Laws
use hive_worker.Base.{
  ℕ, ◌+◌, ◌*◌, ◌^◌, Text, Bool, true, false, Option, none, some, Dict, lookup, insert, erase,
  Result, ok, err, text_eq, ◌==◌, not, ltb, if◌then◌else◌,
}
use hive_worker.Cell.{Manager, ConsoleSession, Error, cell_not_found}

abbrev pub seconds : ℕ → ℕ
seconds n = n * 10 ^ 9

unfoldable pub create_console_session : Text → Text → ℕ → Manager → Manager × Result Error Text
create_console_session cell_id token now m = elim (lookup cell_id m.cells) [
  | none ↦ (m, err cell_not_found)
  | some cell ↦ (
    record m {
      console_sessions =
          insert token (record { cell_id = cell_id; expires_at = now + seconds 30 })
            m.console_sessions;
    },
    ok token,
  )
]

-- The session goes whatever the answer is.
unfoldable pub validate_console_session : Text → Text → ℕ → Manager → Manager × Bool
validate_console_session cell_id token now m = elim (lookup token m.console_sessions) [
  | none ↦ (m, false)
  | some session ↦ (
    record m { console_sessions = erase token m.console_sessions },
    if not (session.cell_id == cell_id)
        then false
        else if ltb session.expires_at now
        then false
        else true,
  )
]
