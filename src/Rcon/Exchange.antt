-- ===== src/Rcon/Exchange.antt =====
-- What the client makes of an answer, and of a size that no packet has.
use hive_worker.Base.{
  ℕ, suc, zero, ◌+◌, ◌-◌, ◌^◌, ◌≤◌, ◌<◌, ◌≡◌, refl, ap, ◌∙◌, Text, Bool, true, false, ◌∷◌, ◌++◌,
  ◌==◌, length, take, Result, ok, err, fail_if, if◌then◌else◌, arith, ltb, length-append,
  length-take,
}
use hive_worker.Go.Int.{ℤ, pos, negsuc, int_eq, leb_ℤ}
use hive_worker.Rcon.{
  write_int32, next_id, packet_bytes, Client, Error, panic, authentication_failed, write_packet,
  decode, read_bytes, read_packet, auth, command, zeros,
}
use hive_worker.Rcon.Laws.{
  IsInt32, EndsClean, read_int32-write_int32, read_bytes-packet_bytes, read_bytes_found,
}

-- The client after it sent a packet and read one.
abbrev pub exchanged : ℤ → Text → Text → Client → Client
exchanged packet_type body rest c = record {
  id = next_id c.id;
  sent = c.sent ++ packet_bytes (next_id c.id) packet_type body;
  incoming = rest;
}

fail_if-if :
    (b : Bool)
    → ◌≡◌ {A = Result Error (Unit {0})}
        (fail_if b authentication_failed)
        (if b then err authentication_failed else ok tt)
fail_if-if true = refl
fail_if-if false = refl

module _ (chunk : ℕ) (id packet_type : ℤ) (body rest text : Text) (c : Client)
    (id_fits : IsInt32 id) (type_fits : IsInt32 packet_type) (clean : EndsClean body)
    (size_fits : length body + 10 < 2 ^ 31) (one_read : length body + 10 ≤ chunk)
    (answer : c.incoming ≡ packet_bytes id packet_type body ++ rest) where
  answered :
      read_bytes chunk c.incoming
      ≡ (ok (record { id = id; packet_type = packet_type; body = body }), rest)
  answered =
      ap (read_bytes chunk) answer
      ∙ read_bytes-packet_bytes chunk id packet_type body rest id_fits type_fits clean size_fits
          one_read

  -- Where the write succeeds and one read gives a whole packet that the server wrote, whose body
  -- does not end in a zero byte and fits the size, Command sends its packet with the next id and
  -- returns that body, whatever the packet's id and type are; what follows stays unread.
  pub command-answer : command true chunk text c ≡ (exchanged (pos 2) text rest c, ok body)
  unfolding command write_packet read_packet
  command-answer = rw answered refl

  -- Where the write succeeds and one read gives a whole packet that the server wrote, whose body
  -- does not end in a zero byte and fits the size, the login sends its packet with the next id and
  -- fails exactly if the id of the server's packet is -1.
  pub auth-answer : auth true chunk text c ≡ (
    exchanged (pos 3) text rest c,
    (if id == negsuc 0 then err authentication_failed else ok tt),
  )
  unfolding auth write_packet read_packet
  auth-answer =
      rw answered (ap (λ e. (exchanged (pos 3) text rest c, e)) (fail_if-if (id == negsuc 0)))

length-zeros : (n : ℕ) → length (zeros n) ≡ n
length-zeros zero = refl
length-zeros (suc n) = ap suc (length-zeros n)

-- Whatever a read gives, the buffer has its size.
length-filled :
    (chunk size : ℕ) (bytes : Text)
    → length (take chunk (take size bytes) ++ zeros (size - length (take chunk (take size bytes))))
      ≡ size
length-filled chunk size bytes = omega (
  arith,
  length-append (take chunk (take size bytes))
      (zeros (size - length (take chunk (take size bytes)))),
  length-zeros (size - length (take chunk (take size bytes))),
  length-take chunk (take size bytes),
  length-take size bytes,
)

small_size : (n : ℕ) → leb_ℤ (pos n) (pos 9) ≡ true → n ≤ 9
small_size n h = ground arith

decode_short : (bytes : Text) → length bytes ≤ 9 → decode bytes ≡ err panic
unfolding decode
decode_short bytes h = let short : ltb (length bytes) 10 ≡ true = ground arith in rw short refl

-- A size below ten that is followed by something makes the reading of a packet panic.
pub read_bytes_undersized :
    (chunk : ℕ) (size : ℤ) (b : ℕ) (rest : Text)
    → IsInt32 size
    → leb_ℤ size (pos 9) ≡ true
    → (read_bytes chunk (write_int32 size ++ (b ∷ rest))).0 ≡ err panic
read_bytes_undersized chunk (negsuc n) b rest h small =
    ap (λ r. r.0)
      (read_bytes_found chunk _ (negsuc n) (b ∷ rest)
        (read_int32-write_int32 (negsuc n) (b ∷ rest) h))
read_bytes_undersized chunk (pos n) b rest h small =
    ap (λ r. r.0)
      (read_bytes_found chunk _ (pos n) (b ∷ rest) (read_int32-write_int32 (pos n) (b ∷ rest) h))
    ∙ decode_short _ (omega (arith, length-filled chunk n (b ∷ rest), small_size n small))
