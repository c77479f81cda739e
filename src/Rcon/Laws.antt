-- ===== src/Rcon/Laws.antt =====
-- A packet that is written is read again.
use mathlib.Core.List.{append-nil, append_assoc}
use hive_worker.Base.{
  ℕ, suc, ◌+◌, ◌-◌, ◌*◌, ◌/◌, ◌%◌, ◌^◌, ◌≤◌, ◌<◌, ◌≡◌, refl, ap, ap₂, ◌∙◌, Text, false, some, [],
  ◌∷◌, ◌++◌, ◌==◌, nat_eq, length, take, ltb, ok, arith, length-append, take-length, drop-length,
  take_all,
}
use hive_worker.Go.Int.{ℤ, pos, negsuc}
use hive_worker.Go.Text.{trim_right}
use hive_worker.Rcon.{
  to_bits, of_bits, write_int32, read_int32, packet_bytes, payload, read_or_zero, zeros, decode,
  read_bytes, read_body,
}

-- The range of an int32.
abbrev pub IsInt32 : ℤ → Type 0
IsInt32 (pos n) = n < 2 ^ 31
IsInt32 (negsuc n) = n < 2 ^ 31

to_bits-lt : (i : ℤ) → to_bits i < 2 ^ 32
to_bits-lt (pos n) = ground arith
to_bits-lt (negsuc n) = ground arith

of_bits-to_bits : (i : ℤ) → IsInt32 i → of_bits (to_bits i) ≡ i
of_bits-to_bits (pos n) h = ground arith
of_bits-to_bits (negsuc n) h = ground arith

four_bytes :
    (n : ℕ)
    → n < 2 ^ 32
    → n % 256 + n / 256 % 256 * 256 + n / 2 ^ 16 % 256 * 2 ^ 16 + n / 2 ^ 24 % 256 * 2 ^ 24 ≡ n
four_bytes n h = omega arith

pub read_int32-write_int32 :
    (i : ℤ) (rest : Text) → IsInt32 i → read_int32 (write_int32 i ++ rest) ≡ some (i, rest)
unfolding read_int32 write_int32
read_int32-write_int32 i rest h =
    ap (λ n. some (n, rest))
      (ap of_bits (four_bytes (to_bits i) (to_bits-lt i)) ∙ of_bits-to_bits i h)

length-payload :
    (id packet_type : ℤ) (body : Text) → length (payload id packet_type body) ≡ length body + 10
unfolding write_int32
length-payload id packet_type body = omega (arith, length-append body (0 ∷ 0 ∷ []))

-- The text does not end in a zero byte.
abbrev pub EndsClean : Text → Type 0
EndsClean s = trim_right (λ c. c == 0) s ≡ s

body-kept :
    (body : Text)
    → EndsClean body
    → trim_right
        (λ c. c == 0)
        (take (length body) (body ++ (0 ∷ 0 ∷ []))
          ++ zeros (length body - length (body ++ (0 ∷ 0 ∷ []))))
      ≡ body
body-kept body h = rw (take-length body (0 ∷ 0 ∷ [])) (
    ap (λ n. trim_right (λ c. c == 0) (body ++ zeros n))
      {x = length body - length (body ++ (0 ∷ 0 ∷ []))} {y = 0}
      (omega (arith, length-append body (0 ∷ 0 ∷ [])))
    ∙ (ap (trim_right (λ c. c == 0)) (append-nil body) ∙ h))

read_found :
    (bytes : Text) {found : ℤ × Text} → read_int32 bytes ≡ some found → read_or_zero bytes ≡ found
unfolding read_or_zero
read_found bytes p = rw (read_or_zero, p) refl

decode-fields :
    (bytes after_id body : Text) (id packet_type : ℤ)
    → read_int32 bytes ≡ some (id, after_id)
    → read_int32 after_id ≡ some (packet_type, body ++ (0 ∷ 0 ∷ []))
    → length bytes ≡ length body + 10
    → EndsClean body
    → decode bytes ≡ ok (record { id = id; packet_type = packet_type; body = body })
unfolding decode
decode-fields bytes after_id body id packet_type p q size clean =
    let fits : ltb (length bytes) 10 ≡ false = ground arith in
    let room : length bytes - 10 ≡ length body = omega arith in
    rw (read_found bytes p, read_found after_id q, fits, room)
      (ap (λ text. ok (record { id = id; packet_type = packet_type; body = text }))
        (body-kept body clean))

decode-payload :
    (id packet_type : ℤ) (body : Text)
    → IsInt32 id
    → IsInt32 packet_type
    → EndsClean body
    → decode (payload id packet_type body)
      ≡ ok (record { id = id; packet_type = packet_type; body = body })
decode-payload id packet_type body hi ht hb =
    decode-fields (payload id packet_type body) _ body id packet_type
      (read_int32-write_int32 id _ hi) (read_int32-write_int32 packet_type _ ht)
      (length-payload id packet_type body) hb

packet_bytes_append :
    (id packet_type : ℤ) (body rest : Text)
    → packet_bytes id packet_type body ++ rest
      ≡ write_int32 (pos (length (payload id packet_type body)))
        ++ (payload id packet_type body ++ rest)
unfolding packet_bytes
packet_bytes_append id packet_type body rest =
    append_assoc (write_int32 (pos (length (payload id packet_type body))))
      (payload id packet_type body) rest

pub read_bytes_found :
    (chunk : ℕ) (bytes : Text) (size : ℤ) (rest : Text)
    → read_int32 bytes ≡ some (size, rest)
    → read_bytes chunk bytes ≡ read_body chunk size rest
unfolding read_bytes
read_bytes_found chunk bytes size rest p = rw (read_bytes, p) refl

-- A read that gives all of the bytes leaves what follows them.
body_read :
    (chunk : ℕ) (bytes rest : Text)
    → 0 < length bytes
    → length bytes ≤ chunk
    → read_body chunk (pos (length bytes)) (bytes ++ rest) ≡ (decode bytes, rest)
body_read chunk [] rest h hc = absurd (omega arith)
body_read chunk (b ∷ bytes) rest h hc =
    rw (take-length bytes rest, take_all chunk (b ∷ bytes) hc)
      (ap₂ (λ n rest. (decode (b ∷ (bytes ++ zeros n)), rest))
          {x = suc (length bytes) - suc (length bytes)} {y = 0} (omega arith)
          (drop-length bytes rest)
        ∙ ap (λ text. (decode (b ∷ text), rest)) (append-nil bytes))

-- An id and a type in the range of an int32 and a body that does not end in a zero byte and fits
-- the size are read again from the bytes of their packet, if one read gives the whole packet; what
-- follows is left in place.
pub read_bytes-packet_bytes :
    (chunk : ℕ) (id packet_type : ℤ) (body rest : Text)
    → IsInt32 id
    → IsInt32 packet_type
    → EndsClean body
    → length body + 10 < 2 ^ 31
    → length body + 10 ≤ chunk
    → read_bytes chunk (packet_bytes id packet_type body ++ rest)
      ≡ (ok (record { id = id; packet_type = packet_type; body = body }), rest)
read_bytes-packet_bytes chunk id packet_type body rest hi ht hb hsize hchunk =
    let bytes = payload id packet_type body in
    let size = length-payload id packet_type body in
    read_bytes_found chunk _ (pos (length bytes)) (bytes ++ rest) (
      ap read_int32 (packet_bytes_append id packet_type body rest)
      ∙ read_int32-write_int32 (pos (length bytes)) (bytes ++ rest) (omega arith))
    ∙ (body_read chunk bytes rest (omega arith) (omega arith)
        ∙ ap (λ answer. (answer, rest)) (decode-payload id packet_type body hi ht hb))
