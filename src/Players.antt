-- ===== src/Players.antt =====
-- internal/players/logfallback.go: the players that a server's log names.
-- The regular expressions are parameters: each gives what it captures in a line that it matches.
pub mod Online
use hive_worker.Base.{
  Text, Bool, true, false, not, ◌&&◌, Option, none, some, List, [], ◌∷◌, map, Dict, lookup, insert,
  text_eq, if◌then◌else◌,
}
use hive_worker.Go.Text.{codes}
use hive_worker.Go.Sort.{slice_stable, text_less}

pub record Player : Type 0 where
  pub name : Text
  pub uuid : Text
  pub online : Bool
  pub source : Text
  pub last_seen_at : Text

-- `uuid_match` captures a name and its id, the other two a name.
pub record Patterns : Type 0 where
  pub uuid_match : Text → Option (Text × Text)
  pub join_match : Text → Option Text
  pub quit_match : Text → Option Text

-- The zero time is the empty text.
abbrev pub no_player : Player
no_player = record { name = []; uuid = []; online = false; source = []; last_seen_at = [] }

-- `state[name]`, the zero value where there is none.
abbrev pub player_of : Option Player → Player
player_of none = no_player
player_of (some player) = player

abbrev pub seen : Text → Text → Player → Player
seen now name player = record player { name = name; source = codes "logs"; last_seen_at = now }

module _ (patterns : Patterns) (now : Text) where
  abbrev pub quit_line : Option Text → Dict Text Player → Dict Text Player
  quit_line none state = state
  quit_line (some name) state =
      insert name (record (seen now name (player_of (lookup name state))) { online = false }) state

  abbrev pub join_line : Option Text → Option Text → Dict Text Player → Dict Text Player
  join_line none quit state = quit_line quit state
  join_line (some name) quit state =
      insert name (record (seen now name (player_of (lookup name state))) { online = true }) state

  abbrev pub uuid_line :
      Option (Text × Text) → Option Text → Option Text → Dict Text Player → Dict Text Player
  uuid_line none join quit state = join_line join quit state
  uuid_line (some (name, uuid)) join quit state =
      insert name (record (seen now name (player_of (lookup name state))) { uuid = uuid }) state

  -- What a line of the log does; only the first pattern that matches counts.
  unfoldable pub read_line : Text → Dict Text Player → Dict Text Player
  read_line line =
      uuid_line (patterns.uuid_match line) (patterns.join_match line) (patterns.quit_match line)

  unfoldable pub read_lines : List Text → Dict Text Player → Dict Text Player
  read_lines [] state = state
  read_lines (line ∷ rest) state = read_lines rest (read_line line state)

-- Those online first, then by name.
unfoldable pub player_less : Player → Player → Bool
player_less left right =
    if left.online && not right.online
    then true
    else if not left.online && right.online
    then false
    else text_less left.name right.name

unfoldable pub sorted_players : Dict Text Player → List Player
sorted_players state = slice_stable player_less (map (λ (entry : Text × Player). entry.1) state)

-- The log: missing, or its lines and whether reading breaks after them.
pub data Log : Type 0 where
  no_log : Log
  lines : List Text → Bool → Log

-- The players that are listed, and the state that is saved, if it is.
pub record Listing : Type 0 where
  pub players : List Player
  pub fails : Bool
  pub saved : Option (Dict Text Player)

-- `stored` is what `loadState` gives, empty where it fails.
unfoldable pub list_from_logs : Patterns → Text → Log → Dict Text Player → Listing
list_from_logs patterns now no_log stored = record {
  players = sorted_players stored;
  fails = false;
  saved = none;
}
list_from_logs patterns now (lines read breaks) stored =
    let state = read_lines patterns now read stored in
    record {
      players = sorted_players state;
      fails = breaks;
      saved = if breaks then none else some state;
    }
