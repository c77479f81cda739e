-- ===== src/Players/Online.antt =====
-- internal/players/logfallback.go: who is online after the log was read.
use hive_worker.Base.{
  Text, ◌≡◌, refl, sym, ap, ◌∙◌, Bool, true, false, Option, none, some, List, [], ◌∷◌, Dict, lookup,
  insert, text_eq, ◌==◌, if◌then◌else◌, arith, lookup-insert,
}
use hive_worker.Players.{Player, Patterns, player_of, seen, read_line, read_lines, uuid_line}

module _ (patterns : Patterns) (now : Text) (name : Text) where
  -- Whether a line says that this player came (true) or went (false).
  abbrev pub change_of : Option (Text × Text) → Option Text → Option Text → Option Bool
  change_of (some _) join quit = none
  change_of none (some joined) quit = if name == joined then some true else none
  change_of none none (some left) = if name == left then some false else none
  change_of none none none = none

  abbrev pub change : Text → Option Bool
  change line =
      change_of (patterns.uuid_match line) (patterns.join_match line) (patterns.quit_match line)

  abbrev pub or_earlier : Option Bool → Option Bool → Option Bool
  or_earlier (some b) earlier = some b
  or_earlier none earlier = earlier

  -- The last line that says so.
  abbrev pub last_change : List Text → Option Bool
  last_change [] = none
  last_change (line ∷ rest) = or_earlier (last_change rest) (change line)

  abbrev pub changed : Option Bool → Bool → Bool
  changed none before = before
  changed (some b) before = b

  abbrev pub is_online : Dict Text Player → Bool
  is_online state = (player_of (lookup name state)).online

  is_online-insert :
      (other : Text) (player : Player) (state : Dict Text Player)
      → is_online (insert other player state)
        ≡ (if name == other then player.online else is_online state)
  is_online-insert other player state = ground (arith, lookup-insert name other player state)

  if_same :
      (other : Text) (b : Bool) (state : Dict Text Player)
      → (name ≡ other → b ≡ is_online state)
      → (if name == other then b else is_online state) ≡ is_online state
  if_same other b state h = ground arith

  uuid_line-online :
      (uuid : Option (Text × Text)) (join quit : Option Text) (state : Dict Text Player)
      → is_online (uuid_line patterns now uuid join quit state)
        ≡ changed (change_of uuid join quit) (is_online state)
  uuid_line-online (some (other, id)) join quit state =
      let player = record (seen now other (player_of (lookup other state))) { uuid = id } in
      is_online-insert other player state
      ∙ if_same other (player_of (lookup other state)).online state
          (λ e. ap (λ n. (player_of (lookup n state)).online) (sym e))
  uuid_line-online none (some other) quit state =
      is_online-insert other
        (record (seen now other (player_of (lookup other state))) { online = true }) state
      ∙ ground arith
  uuid_line-online none none (some other) state =
      is_online-insert other
        (record (seen now other (player_of (lookup other state))) { online = false }) state
      ∙ ground arith
  uuid_line-online none none none state = refl

  read_line-online :
      (line : Text) (state : Dict Text Player)
      → is_online (read_line patterns now line state) ≡ changed (change line) (is_online state)
  unfolding read_line
  read_line-online line state =
      uuid_line-online (patterns.uuid_match line) (patterns.join_match line)
        (patterns.quit_match line) state

  changed-or_earlier :
      (last first : Option Bool) (before : Bool)
      → changed last (changed first before) ≡ changed (or_earlier last first) before
  changed-or_earlier none first before = refl
  changed-or_earlier (some b) first before = refl

  -- After the lines of a log were read, a player is online exactly if the last line that says so
  -- says that the player came; if none says so, as before.
  pub read_lines-is_online :
      (lines : List Text) (state : Dict Text Player)
      → is_online (read_lines patterns now lines state)
        ≡ changed (last_change lines) (is_online state)
  unfolding read_lines
  read_lines-is_online [] state = refl
  read_lines-is_online (line ∷ rest) state =
      read_lines-is_online rest (read_line patterns now line state)
      ∙ (ap (changed (last_change rest)) (read_line-online line state)
          ∙ changed-or_earlier (last_change rest) (change line) (is_online state))
