-- ===== src/Cell/Console/Subscriber.antt =====
-- What one subscriber receives: lines in the order of the console, each at most once; a full
-- channel keeps its oldest lines.
use mathlib.Core.List.{Sublist, append_assoc, append-nil, sublist-append_left}
use mathlib.Core.List.Sublist
use hive_worker.Base.{
  ◌≤◌, Text, ◌≡◌, refl, ◌∙◌, sym, ap, Option, none, some, List, [], ◌∷◌, ◌++◌, arith, length, take,
  length-append, ltb, Bool-cases, inl, inr, take_all, subst, take-length,
}
use hive_worker.Cell.{Chan}
use hive_worker.Cell.Channel.{capacity, try_send}
use hive_worker.Cell.Console.{fill}

-- The history loop of a subscription leaves the oldest hundred of the lines already buffered and
-- the lines of the history.
pub fill_lem :
    (lines buffer : List Text)
    → length buffer ≤ capacity
    → fill lines buffer ≡ take capacity (buffer ++ lines)
unfolding fill
fill_lem [] buffer h = rw append-nil (sym (take_all capacity buffer h))
fill_lem (line ∷ rest) buffer h = elim (Bool-cases (ltb (length buffer) capacity)) [
  | inl room ↦
      rw (room, fill)
        (fill_lem rest (buffer ++ (line ∷ [])) (ground (arith, length-append buffer (line ∷ [])))
          ∙ ap (take capacity) (append_assoc buffer (line ∷ []) rest))
  | inr full ↦
      rw (full, fill)
        (let exact : capacity ≡ length buffer = ground arith in
          sym (take-length buffer (line ∷ rest))
          ∙ ap (λ n. take n (buffer ++ (line ∷ rest))) (sym exact))
]

-- What happens at one channel: lines are sent, and the client reads.
pub data Use : Type 0 where
  sent : Text → Use
  received : Use

-- The lines that were received, and the channel.
pub record Client : Type 0 where
  pub got : List Text
  pub chan : Chan

abbrev receive : List Text → Client → Client
receive [] c = c
receive (line ∷ rest) c = record {
  got = c.got ++ (line ∷ []);
  chan = record (c.chan) { buffer = rest };
}

abbrev put_chan : Client → Option Chan → Client
put_chan c none = c
put_chan c (some chan) = record c { chan = chan }

unfoldable pub use_all : List Use → Client → Client
use_all [] c = c
use_all (sent line ∷ rest) c = use_all rest (put_chan c (try_send line c.chan))
use_all (received ∷ rest) c = use_all rest (receive c.chan.buffer c)

abbrev pub sent_lines : List Use → List Text
sent_lines [] = []
sent_lines (sent line ∷ rest) = line ∷ sent_lines rest
sent_lines (received ∷ rest) = sent_lines rest

-- Received or still buffered, the lines are among those offered, in order.
abbrev Follows : List Text → Client → Type 0
Follows offered c = Sublist (c.got ++ c.chan.buffer) offered

send-Follows :
    (line : Text) (offered : List Text) (c : Client)
    → Follows offered c
    → Follows (offered ++ (line ∷ [])) (put_chan c (try_send line c.chan))
unfolding try_send
send-Follows line offered c h = elim (Bool-cases c.chan.closed) [
  | inl shut ↦ rw shut weaker
  | inr is_open ↦ elim (Bool-cases (ltb (length c.chan.buffer) capacity)) [
    | inl room ↦
        rw (is_open, room)
          (rw (← append_assoc c.got c.chan.buffer (line ∷ []))
            (Sublist.append h (Sublist.refl (line ∷ []))))
    | inr full ↦ rw (is_open, full) weaker
  ]
]
  where
    weaker : Follows (offered ++ (line ∷ [])) c
    weaker = Sublist.trans h (sublist-append_left offered (line ∷ []))

receive-Follows :
    (buffer offered : List Text) (c : Client)
    → c.chan.buffer ≡ buffer
    → Follows offered c
    → Follows offered (receive buffer c)
receive-Follows [] offered c e h = h
receive-Follows (line ∷ rest) offered c e h =
    rw (append_assoc c.got (line ∷ []) rest) (subst (λ b. Sublist (c.got ++ b) offered) e h)

-- After any sends and reads, what a subscriber received followed by what is buffered is in order
-- among the lines offered before and the lines sent, each at most as often as it was offered.
pub use_all-Follows :
    (uses : List Use) (offered : List Text) (c : Client)
    → Sublist (c.got ++ c.chan.buffer) offered
    → Sublist ((use_all uses c).got ++ (use_all uses c).chan.buffer) (offered ++ sent_lines uses)
unfolding use_all
use_all-Follows [] offered c h = rw (append-nil offered) h
use_all-Follows (sent line ∷ rest) offered c h =
    rw (← append_assoc offered (line ∷ []) (sent_lines rest))
      (use_all-Follows rest (offered ++ (line ∷ [])) _ (send-Follows line offered c h))
use_all-Follows (received ∷ rest) offered c h =
    use_all-Follows rest offered _ (receive-Follows c.chan.buffer offered c refl h)
