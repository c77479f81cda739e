-- ===== src/Tests/Rcon.antt =====
-- Packets of the RCON client.
use hive_worker.Base.{◌≡◌, refl, true, [], ◌∷◌, ◌++◌, ok, ℕ_discrete, arith}
use hive_worker.Go.Int.{pos, negsuc, int_eq}
use hive_worker.Go.Text.{codes, trim_right}
use hive_worker.Rcon.{Client, write_int32, packet_bytes, read_bytes, command}
use hive_worker.Rcon.Laws.{EndsClean, read_bytes-packet_bytes}
use hive_worker.Rcon.Exchange.{exchanged, command-answer}

list_packet :
    packet_bytes (pos 2) (pos 2) (codes "list")
    ≡ 14 ∷ 0 ∷ 0 ∷ 0 ∷ 2 ∷ 0 ∷ 0 ∷ 0 ∷ 2 ∷ 0 ∷ 0 ∷ 0 ∷ 108 ∷ 105 ∷ 115 ∷ 116 ∷ 0 ∷ 0 ∷ []
unfolding packet_bytes write_int32
list_packet = refl

clean_answer : EndsClean (codes "pong")
unfolding trim_right ℕ_discrete
clean_answer = refl

abbrev waiting : Client
waiting = record {
  id = pos 1;
  sent = [];
  incoming = packet_bytes (pos 7) (pos 0) (codes "pong") ++ codes "x";
}

read_bytes-packet_bytes_example :
    read_bytes 4096 (packet_bytes (negsuc 0) (pos 2) (codes "pong") ++ [])
    ≡ (ok (record { id = negsuc 0; packet_type = pos 2; body = codes "pong" }), [])
read_bytes-packet_bytes_example =
    read_bytes-packet_bytes 4096 (negsuc 0) (pos 2) (codes "pong") [] (omega arith) (omega arith)
      clean_answer (omega arith) (omega arith)

command-answer_example :
    command true 4096 (codes "ping") waiting
    ≡ (exchanged (pos 2) (codes "ping") (codes "x") waiting, ok (codes "pong"))
command-answer_example =
    command-answer 4096 (pos 7) (pos 0) (codes "pong") (codes "x") (codes "ping") waiting
      (omega arith) (omega arith) clean_answer (omega arith) (omega arith) refl
