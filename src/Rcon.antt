-- ===== src/Rcon.antt =====
-- internal/rcon/client.go: the packets of the RCON client. A string is its sequence of bytes, and
-- what the other side sends is what one read of the connection gives.
pub mod Laws
pub mod Exchange
use hive_worker.Base.{
  ℕ, zero, suc, ◌+◌, ◌-◌, ◌*◌, ◌/◌, ◌%◌, ◌^◌, Text, Bool, true, false, Option, none, some, List, [],
  ◌∷◌, ◌++◌, ◌==◌, nat_eq, length, take, drop, ltb, leb, Result, ok, err, ◌>>=◌, ◌>>◌, ◌&&◌,
  fail_if, if◌then◌else◌,
}
use hive_worker.Go.Int.{ℤ, pos, negsuc, int_eq}
use hive_worker.Go.Text.{is_empty, trim_right}

-- The bits of an int32, and the number that they mean.
abbrev pub to_bits : ℤ → ℕ
to_bits (pos n) = n % 2 ^ 32
to_bits (negsuc n) = 2 ^ 32 - 1 - n % 2 ^ 32

abbrev pub of_bits : ℕ → ℤ
of_bits n = if ltb n (2 ^ 31) then pos n else negsuc (2 ^ 32 - 1 - n)

-- `binary.Write` and `binary.Read` of an int32 in little-endian order.
unfoldable pub write_int32 : ℤ → Text
write_int32 i =
    let n = to_bits i in n % 256 ∷ n / 256 % 256 ∷ n / 2 ^ 16 % 256 ∷ n / 2 ^ 24 % 256 ∷ []

unfoldable pub read_int32 : Text → Option (ℤ × Text)
read_int32 (a ∷ b ∷ c ∷ d ∷ rest) = some (of_bits (a + b * 256 + c * 2 ^ 16 + d * 2 ^ 24), rest)
read_int32 _ = none

-- `c.id++` on an int32
abbrev pub next_id : ℤ → ℤ
next_id (pos n) = of_bits ((n + 1) % 2 ^ 32)
next_id (negsuc zero) = pos 0
next_id (negsuc (suc n)) = negsuc n

abbrev pub payload : ℤ → ℤ → Text → Text
payload id packet_type body = write_int32 id ++ (write_int32 packet_type ++ (body ++ (0 ∷ 0 ∷ [])))

-- The bytes of a packet, its size first.
unfoldable pub packet_bytes : ℤ → ℤ → Text → Text
packet_bytes id packet_type body =
    let bytes = payload id packet_type body in write_int32 (pos (length bytes)) ++ bytes

-- What was written to the connection, and what is still to be read before it is closed.
pub data Error : Type 0 where
  no_size : Error
  connection : Error
  panic : Error
  authentication_failed : Error

pub record Client : Type 0 where
  pub id : ℤ
  pub sent : Text
  pub incoming : Text

-- Whether the write succeeds is an argument; the id is counted up in any case.
unfoldable pub write_packet : Bool → ℤ → Text → Client → Client × Result Error (Unit {0})
write_packet can_write packet_type body c =
    let id = next_id c.id in
    if can_write
    then (record c { id = id; sent = c.sent ++ packet_bytes id packet_type body }, ok tt)
    else (record c { id = id }, err connection)

pub record Packet : Type 0 where
  pub id : ℤ
  pub packet_type : ℤ
  pub body : Text

-- `binary.Read` from the packet's bytes: without four bytes the variable stays 0, and the reader
-- is at its end.
unfoldable pub read_or_zero : Text → ℤ × Text
read_or_zero bytes = elim (read_int32 bytes) [ none ↦ (pos 0, []) | some found ↦ found ]

abbrev pub zeros : ℕ → Text
zeros zero = []
zeros (suc n) = 0 ∷ zeros n

-- What `readPacket` makes of the bytes of a packet, of which there are `size`. Fewer than ten make
-- the length of the body negative, which panics.
unfoldable pub decode : Text → Result Error Packet
decode bytes =
    let (id, after_id) = read_or_zero bytes in
    let (packet_type, rest) = read_or_zero after_id in
    let size = length bytes - 10 in
    if ltb (length bytes) 10
    then err panic
    else ok (record {
      id = id;
      packet_type = packet_type;
      body = trim_right (λ c. c == 0) (take size rest ++ zeros (size - length rest));
    })

-- One read of the connection gives at most `chunk` bytes of what is there; what it does not fill of
-- the buffer stays zero. Also what is left in the connection.
abbrev pub read_body : ℕ → ℤ → Text → Result Error Packet × Text
read_body chunk (negsuc n) rest = (err panic, rest)
read_body chunk (pos size) rest =
    let received = take chunk (take size rest) in
    if is_empty rest && ltb 0 size
    then (err connection, [])
    else (decode (received ++ zeros (size - length received)), drop (length received) rest)

unfoldable pub read_bytes : ℕ → Text → Result Error Packet × Text
read_bytes chunk bytes = elim (read_int32 bytes) [
  | none ↦ (err no_size, [])
  | some (size, rest) ↦ read_body chunk size rest
]

unfoldable pub read_packet : ℕ → Client → Client × Result Error Packet
read_packet chunk c =
    let (answer, rest) = read_bytes chunk c.incoming in (record c { incoming = rest }, answer)

abbrev pub check_auth : Result Error Packet → Result Error (Unit {0})
check_auth (err e) = err e
check_auth (ok packet) = fail_if (packet.id == negsuc 0) authentication_failed

abbrev pub body_of : Result Error Packet → Result Error Text
body_of (err e) = err e
body_of (ok packet) = ok packet.body

-- The answer is read after a write that succeeded.
abbrev pub and_read : ℕ → Client × Result Error (Unit {0}) → Client × Result Error Packet
and_read chunk (c, err e) = (c, err e)
and_read chunk (c, ok _) = read_packet chunk c

unfoldable pub auth : Bool → ℕ → Text → Client → Client × Result Error (Unit {0})
auth can_write chunk password c =
    let (after, answer) = and_read chunk (write_packet can_write (pos 3) password c) in
    (after, check_auth answer)

unfoldable pub command : Bool → ℕ → Text → Client → Client × Result Error Text
command can_write chunk text c =
    let (after, answer) = and_read chunk (write_packet can_write (pos 2) text c) in
    (after, body_of answer)
