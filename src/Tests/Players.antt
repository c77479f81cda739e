-- ===== src/Tests/Players.antt =====
-- The players that a log names.
use hive_worker.Base.{
  ◌≡◌, refl, true, false, Option, some, none, [], ◌∷◌, Text, text_eq, ◌==◌, if◌then◌else◌,
}
use hive_worker.Go.Text.{codes}
use hive_worker.Players.{Patterns, read_lines}
use hive_worker.Players.Online.{is_online, changed, last_change, read_lines-is_online}

-- Patterns for the lines "+" and "-" of one player.
abbrev patterns : Patterns
patterns = record {
  uuid_match = λ _. none;
  join_match = λ line. if line == codes "+" then some (codes "ada") else none;
  quit_match = λ line. if line == codes "-" then some (codes "ada") else none;
}

read_lines-is_online_example :
    is_online patterns
      (codes "now")
      (codes "ada")
      (read_lines patterns (codes "now") (codes "+" ∷ codes "-" ∷ codes "?" ∷ []) [])
    ≡ changed patterns
        (codes "now")
        (codes "ada")
        (last_change patterns (codes "now") (codes "ada") (codes "+" ∷ codes "-" ∷ codes "?" ∷ []))
        false
unfolding hive_worker.Base.lookup
read_lines-is_online_example =
    read_lines-is_online patterns (codes "now") (codes "ada")
      (codes "+" ∷ codes "-" ∷ codes "?" ∷ []) []
