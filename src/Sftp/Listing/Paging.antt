-- ===== src/Sftp/Listing/Paging.antt =====
-- Reading a listing in pieces gives every entry once, in order.
use Prim.Native.Nat.{min}
use hive_worker.Base.{
  ℕ, suc, zero, ◌+◌, ◌-◌, ◌≤◌, ◌<◌, ◌≡◌, ◌⊎◌, refl, sym, ap, ◌∙◌, true, false, Option, none, some,
  List, [], ◌∷◌, ◌++◌, length, take, drop, leb, Bool-cases, inl, inr, arith, length-take,
  length-drop, take_all, drop-drop,
}
use hive_worker.Go.Int.{pos}
use hive_worker.Sftp.{FileInfo, Error, eof}
use hive_worker.Sftp.Listing.{list_at}

abbrev pub go_on :
    List FileInfo × Option Error → List FileInfo × Option Error → List FileInfo × Option Error
go_on (copied, some e) later = (copied, some e)
go_on (copied, none) later = (copied ++ later.0, later.1)

-- The server's reads of a listing, from an offset on, until an error comes; at most so many.
abbrev pub read_on : ℕ → List FileInfo → ℕ → ℕ → List FileInfo × Option Error
read_on zero entries room offset = ([], none)
read_on (suc rounds) entries room offset =
    let piece = list_at entries room (pos offset) in
    go_on piece (read_on rounds entries room (offset + length piece.0))

take-drop : (n : ℕ) (xs : List FileInfo) → take n xs ++ drop n xs ≡ xs
take-drop zero xs = refl
take-drop (suc n) [] = refl
take-drop (suc n) (x ∷ xs) = ap (λ l. x ∷ l) (take-drop n xs)

drop_all : (n : ℕ) (xs : List FileInfo) → length xs ≤ n → drop n xs ≡ []
drop_all zero [] h = refl
drop_all zero (x ∷ xs) h = absurd (omega arith)
drop_all (suc n) [] h = refl
drop_all (suc n) (x ∷ xs) h = drop_all n xs (omega arith)

leb-le : (m n : ℕ) → leb m n ≡ true → m ≤ n
leb-le m n h = ground arith

leb-lt : (m n : ℕ) → leb m n ≡ false → n < m
leb-lt m n h = ground arith

length-read :
    (entries : List FileInfo) (room offset : ℕ)
    → length (take room (drop offset entries)) ≡ min room (length entries - offset)
length-read entries room offset =
    length-take room (drop offset entries) ∙ ap (min room) (length-drop offset entries)

all_taken :
    (entries : List FileInfo) (room offset : ℕ)
    → length entries ≤ offset + length (take room (drop offset entries))
    → take room (drop offset entries) ≡ drop offset entries
all_taken entries room offset h =
    take_all room (drop offset entries)
      (omega (arith, length-read entries room offset, length-drop offset entries))

not_all :
    (entries : List FileInfo) (room offset : ℕ)
    → offset + length (take room (drop offset entries)) < length entries
    → offset + room < length entries
not_all entries room offset h = omega (arith, length-read entries room offset)

-- What one read gives: the error comes with the last entry, and before it every read is full.
list_at-read :
    (entries : List FileInfo) (room offset : ℕ)
    → 0 < room
    → (list_at entries room (pos offset) ≡ (drop offset entries, some eof))
      ⊎ ((list_at entries room (pos offset) ≡ (take room (drop offset entries), none))
          × (offset + room < length entries))
unfolding list_at
list_at-read entries room offset h = elim (Bool-cases (leb (length entries) offset)) [
  | inl past ↦ inl (rw (past, drop_all offset entries (leb-le _ _ past)) refl)
  | inr inside ↦
      elim (Bool-cases (leb (length entries) (offset + length (take room (drop offset entries))))) [
        | inl last ↦ inl (
            rw (inside, last)
              (ap (λ l. (l, some eof)) (all_taken entries room offset (leb-le _ _ last))))
        | inr more ↦ inr (rw (inside, more) refl, not_all entries room offset (leb-lt _ _ more))
      ]
]

after_read :
    (rounds : ℕ) (entries : List FileInfo) (room offset : ℕ) {piece : List FileInfo × Option Error}
    → list_at entries room (pos offset) ≡ piece
    → read_on (suc rounds) entries room offset
      ≡ go_on piece (read_on rounds entries room (offset + length piece.0))
after_read rounds entries room offset p =
    ap (λ piece. go_on piece (read_on rounds entries room (offset + length piece.0))) p

rest_taken :
    (entries : List FileInfo) (room offset : ℕ)
    → take room (drop offset entries) ++ drop (offset + room) entries ≡ drop offset entries
rest_taken entries room offset =
    ap (λ l. take room (drop offset entries) ++ l) (sym (drop-drop room offset entries))
    ∙ take-drop room (drop offset entries)

-- With room for an entry, reads from an offset on give all entries from there, in order, and then
-- the end of the file, if one may read at least once and as often as there are such entries.
pub read_on-all :
    (rounds : ℕ) (entries : List FileInfo) (room offset : ℕ)
    → 0 < room
    → length entries ≤ offset + rounds
    → 0 < rounds
    → read_on rounds entries room offset ≡ (drop offset entries, some eof)
read_on-all zero entries room offset h fuel some_round = absurd (omega arith)
read_on-all (suc rounds) entries room offset h fuel some_round =
    elim (list_at-read entries room offset h) [
      | inl p ↦ after_read rounds entries room offset p
      | inr (p, more) ↦
          after_read rounds entries room offset p
          ∙ (ap
                (λ k.
                  go_on (take room (drop offset entries), none)
                    (read_on rounds entries room (offset + k)))
                {x = length (take room (drop offset entries))} {y = room}
                (omega (arith, length-read entries room offset))
              ∙ (ap (go_on (take room (drop offset entries), none))
                    (read_on-all rounds entries room (offset + room) h (omega arith) (omega arith))
                  ∙ ap (λ l. (l, some eof)) (rest_taken entries room offset)))
    ]
