-- ===== src/Cell/Session/Laws.antt =====
-- A token opens the console of its cell once, and only in time.
use hive_worker.Base.{
  ℕ, ◌+◌, ◌≤◌, Text, ◌≡◌, refl, Bool, false, none, some, List, [], ◌∷◌, arith, lookup, lookup-erase,
  lookup-insert_self, text_eq, Option-cases, inl, inr, leb, ◌==◌, ◌&&◌, if◌then◌else◌,
}
use hive_worker.Cell.{Manager, Cell}
use hive_worker.Cell.Session.{seconds, create_console_session, validate_console_session}

-- An attempt to use a token: a cell, a token and the time.
pub record Attempt : Type 0 where
  pub cell_id : Text
  pub token : Text
  pub now : ℕ

abbrev try_token : Attempt → Manager → Manager × Bool
try_token a m = validate_console_session a.cell_id a.token a.now m

-- How many of the attempts with one token succeed.
unfoldable pub successes : Text → List Attempt → Manager → ℕ
successes token [] m = 0
successes token (a ∷ rest) m =
    let (m', opened) = try_token a m in
    let later = successes token rest m' in if opened && (a.token == token) then later + 1 else later

-- After an attempt its token is gone, and the other tokens are as before.
lookup-try_token :
    (a : Attempt) (token : Text) (m : Manager)
    → lookup token (try_token a m).0.console_sessions
      ≡ (if token == a.token then none else lookup token m.console_sessions)
unfolding validate_console_session
lookup-try_token a token m = elim (Option-cases (lookup a.token m.console_sessions)) [
  | inl missing ↦ rw (missing, validate_console_session) (ground arith)
  | inr (session, found) ↦
      rw (found, validate_console_session)
        (ground (arith, lookup-erase token a.token m.console_sessions))
]

try_token-missing :
    (a : Attempt) (m : Manager)
    → lookup a.token m.console_sessions ≡ none
    → (try_token a m).1 ≡ false
unfolding validate_console_session
try_token-missing a m h = rw (h, validate_console_session)

gone :
    (token : Text) (attempts : List Attempt) (m : Manager)
    → lookup token m.console_sessions ≡ none
    → successes token attempts m ≡ 0
unfolding successes
gone token [] m h = refl
gone token (a ∷ rest) m h =
    ground
      (arith, try_token-missing a m, lookup-try_token a token m, gone token rest (try_token a m).0)

-- Whatever attempts are made with whatever tokens, at most one attempt with a given token succeeds
-- between two creations of it.
pub successes-le-one :
    (token : Text) (attempts : List Attempt) (m : Manager) → successes token attempts m ≤ 1
unfolding successes
successes-le-one token [] m = omega arith
successes-le-one token (a ∷ rest) m = ground (
  arith,
  lookup-try_token a token m,
  gone token rest (try_token a m).0,
  successes-le-one token rest (try_token a m).0,
)

module _ (id token : Text) (now : ℕ) (m : Manager) (cell : Cell)
    (found : lookup id m.cells ≡ some cell) where
  -- The first attempt with a console token created for a cell that exists succeeds exactly if it
  -- names that cell and comes at most thirty seconds later.
  pub validate-create :
      (cell_id : Text) (later : ℕ)
      → (validate_console_session cell_id token later (create_console_session id token now m).0).1
        ≡ ((cell_id == id) && leb later (now + seconds 30))
  unfolding create_console_session validate_console_session
  validate-create cell_id later =
      rw (found, create_console_session)
        (rw (lookup-insert_self token _ m.console_sessions, validate_console_session)
          (ground arith))
