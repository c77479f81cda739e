-- ===== src/Cell/Channel.antt =====
-- Sends that do not wait, and `close`, on buffered channels. `none` is a panic.
use hive_worker.Base.{
  ◌≡◌, inl, inr, Bool-cases, ℕ, Text, true, false, Option, none, some, [], ◌∷◌, ◌++◌, length, ltb,
  if◌then◌else◌, nat_eq, ◌==◌,
}
use hive_worker.Cell.{Chan}

abbrev pub capacity : ℕ
capacity = 100

-- `make(chan string, 100)`
abbrev pub new_chan : Chan
new_chan = record { buffer = []; closed = false }

-- `select { case ch <- line: default: }`: a line for a full channel is dropped.
unfoldable pub try_send : Text → Chan → Option Chan
try_send line ch =
    if ch.closed
    then none
    else if ltb (length ch.buffer) capacity
    then some (record ch { buffer = ch.buffer ++ (line ∷ []) })
    else some ch

unfoldable pub close : Chan → Option Chan
close ch = if ch.closed then none else some (record ch { closed = true })

-- The entry of one channel replaced.
abbrev pub update : (ℕ → Chan) → ℕ → Chan → ℕ → Chan
update channels ch c i = if i == ch then c else channels i

-- A send on an open channel does not panic, and leaves it open.
pub try_send_open :
    (line : Text) (ch : Chan)
    → ch.closed ≡ false
    → (ch' : Chan) × (try_send line ch ≡ some ch') × (ch'.closed ≡ false)
unfolding try_send
try_send_open line ch h = elim (Bool-cases (ltb (length ch.buffer) capacity)) [
  | inl room ↦ (record ch { buffer = ch.buffer ++ (line ∷ []) }, rw (h, room), h)
  | inr full ↦ (ch, rw (h, full), h)
]
