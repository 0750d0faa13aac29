-- ===== src/Tail/Polls.antt =====
-- The polls of tail.rs: reads in pieces, idle polls, rotations and the end of the loop.
use sigmacatch.Tail.{
  Bytes, Channel, newline, send_all, LineHandler, Tail, TailState, deliver, drain_lines, read_bytes,
  Calls, poll, run_loop, check_rotation, reopen,
}
use sigmacatch.Tail.Lines.{
  attach, split_lines, drain_lines-feed, feed, HasNoNewline, split_lines-IsCut,
}
use sigmacatch.Prelude.{
  ==_refl, Bool, Bool-cases, List, Option, [], ap, append-nil, append_assoc, arith, false, inl, inr,
  length, map, none, refl, some, sym, true, ℕ, ◌++◌, ◌==◌, ◌∙◌, ◌∷◌, ◌≡◌,
}

abbrev grown : List Bytes × Bytes → Bytes → List Bytes × Bytes
grown c q = (c.0 ++ (split_lines (c.1 ++ q)).0, (split_lines (c.1 ++ q)).1)

attach-grown :
    (b : ℕ) (q : Bytes) (c : List Bytes × Bytes)
    → (b == newline) ≡ false
    → attach b (grown c q) ≡ grown (attach b c) q
unfolding split_lines
attach-grown b q ([], rest) plain = rw plain
attach-grown b q (l ∷ ls, rest) plain = refl

-- Cutting more bytes goes on from the unfinished line.
pub split_lines-append : (p q : Bytes) → split_lines (p ++ q) ≡ grown (split_lines p) q
unfolding split_lines
split_lines-append [] q = refl
split_lines-append (b ∷ bs) q = elim (Bool-cases (b == newline)) [
  | inl cut ↦ rw cut (ap (λ c. ((b ∷ []) ∷ c.0, c.1)) (split_lines-append bs q))
  | inr plain ↦
      rw plain (ap (attach b) (split_lines-append bs q) ∙ attach-grown b q (split_lines bs) plain)
]

split_lines-clean : (p : Bytes) → HasNoNewline p → split_lines p ≡ ([], p)
unfolding split_lines
split_lines-clean [] h = refl
split_lines-clean (b ∷ bs) (n, h) =
    let plain : (b == newline) ≡ false = ground arith in
    rw plain (ap (attach b) (split_lines-clean bs h))

-- A channel whose receiver stays.
abbrev pub open_with : {Event : Type 0} → List Event → Channel Event
open_with sent = record { sent = sent; room = none }

pub send_all-open :
    {Event : Type 0} (events sent : List Event)
    → send_all events (open_with sent) ≡ (open_with (sent ++ events), true)
unfolding send_all
send_all-open [] sent = rw append-nil
send_all-open (event ∷ events) sent =
    send_all-open events (sent ++ event ∷ [])
    ∙ ap (λ l. (open_with l, true)) (append_assoc sent (event ∷ []) events)

-- All bytes of some reads.
abbrev pub read_all : List (ℕ × Bytes) → Bytes
read_all [] = []
read_all ((b, bs) ∷ pieces) = (b ∷ bs) ++ read_all pieces

module _ {Event : Type 0} (handler : LineHandler Event) where
  open handler use {State, on_line}

  -- A handler that returns no error on a line, as those of the collectors.
  abbrev pub NeverFails : Type 0
  NeverFails =
      (h : State) (line : Bytes) → (events : List Event) × ((on_line h line).0 ≡ some events)

  -- The state after some lines, and the events that they gave.
  unfoldable pub absorb : NeverFails → List Bytes → State → List Event → State × List Event
  absorb ok [] h sent = (h, sent)
  absorb ok (line ∷ lines) h sent = absorb ok lines (on_line h line).1 (sent ++ (ok h line).0)

  absorb-append :
      (ok : NeverFails) (ls ms : List Bytes) (h : State) (sent : List Event)
      → absorb ok (ls ++ ms) h sent ≡ absorb ok ms (absorb ok ls h sent).0 (absorb ok ls h sent).1
  unfolding absorb
  absorb-append ok [] ms h sent = refl
  absorb-append ok (l ∷ ls) ms h sent = absorb-append ok ls ms (on_line h l).1 (sent ++ (ok h l).0)

  deliver-open :
      (r : Option (List Event)) (h : State) (sent events : List Event)
      → r ≡ some events
      → deliver handler (r, h) (open_with sent) ≡ (some true, h, open_with (sent ++ events))
  unfolding deliver
  deliver-open r h sent events e = rw e (rw send_all-open)

  feed-absorb :
      (ok : NeverFails) (ls : List Bytes) (rest : Bytes) (h : State) (sent : List Event)
      → feed handler ls rest h (open_with sent)
        ≡ (true, rest, (absorb ok ls h sent).0, open_with (absorb ok ls h sent).1)
  unfolding feed absorb
  feed-absorb ok [] rest h sent = refl
  feed-absorb ok (l ∷ ls) rest h sent =
      rw (deliver-open (on_line h l).0 (on_line h l).1 sent (ok h l).0 (ok h l).1)
        (feed-absorb ok ls rest (on_line h l).1 (sent ++ (ok h l).0))

  -- What a drain does where the handler does not fail and the receiver stays.
  pub drain_lines-absorb :
      (ok : NeverFails) (bs : Bytes) (h : State) (sent : List Event)
      → drain_lines handler (length bs) bs h (open_with sent) ≡ (
        true,
        (split_lines bs).1,
        (absorb ok (split_lines bs).0 h sent).0,
        open_with (absorb ok (split_lines bs).0 h sent).1,
      )
  drain_lines-absorb ok bs h sent =
      drain_lines-feed handler (length bs) bs h (open_with sent) (omega arith)
      ∙ feed-absorb ok (split_lines bs).0 (split_lines bs).1 h sent

  abbrev pub at : TailState → Bytes → State → List Event → Tail handler
  at s pending h sent = record {
    tail = record s { pending = pending };
    state = h;
    channel = open_with sent;
  }

  read_bytes-absorb :
      (ok : NeverFails) (s : TailState) (p : Bytes) (h : State) (sent : List Event) (b : ℕ)
      (bs : Bytes)
      → read_bytes handler (some (b ∷ bs)) (at s p h sent) ≡ (
        at s
            (split_lines (p ++ b ∷ bs)).1
            (absorb ok (split_lines (p ++ b ∷ bs)).0 h sent).0
            (absorb ok (split_lines (p ++ b ∷ bs)).0 h sent).1,
        true,
      )
  unfolding read_bytes
  read_bytes-absorb ok s p h sent b bs = rw (drain_lines-absorb ok (p ++ b ∷ bs) h sent)

  -- A round of the loop that reads some bytes of the same file.
  abbrev pub reads : TailState → ℕ × Bytes → Bool × Calls
  reads s (b, bs) =
      (false, record { metadata = some (s.dev, s.ino); opened = none; read = some (b ∷ bs) })

  poll-reads :
      (s : TailState) (piece : ℕ × Bytes) (p : Bytes) (h : State) (sent : List Event)
      → poll handler (reads s piece).1 (at s p h sent)
        ≡ read_bytes handler (some (piece.0 ∷ piece.1)) (at s p h sent)
  unfolding poll
  poll-reads s piece p h sent = rw (==_refl s.dev, ==_refl s.ino)

  abbrev pub absorbed :
      NeverFails → TailState → State → List Event → List Bytes × Bytes → Tail handler
  absorbed ok s h sent c = let (h', sent') = absorb ok c.0 h sent in at s c.1 h' sent'

  absorbed-grown :
      (ok : NeverFails) (s : TailState) (h : State) (sent : List Event) (c : List Bytes × Bytes)
      (q : Bytes)
      → absorbed ok s (absorb ok c.0 h sent).0 (absorb ok c.0 h sent).1 (split_lines (c.1 ++ q))
        ≡ absorbed ok s h sent (grown c q)
  absorbed-grown ok s h sent c q = rw absorb-append

  -- However the bytes come in pieces, the loop leaves what one cut of all of them gives: the events
  -- of the complete lines in order, each line once, and the unfinished line pending.
  pub run_loop-reads :
      (ok : NeverFails) (s : TailState) (pieces : List (ℕ × Bytes)) (p : Bytes) (h : State)
      (sent : List Event)
      → HasNoNewline p
      → run_loop handler (map (reads s) pieces) (at s p h sent)
        ≡ absorbed ok s h sent (split_lines (p ++ read_all pieces))
  unfolding run_loop absorb
  run_loop-reads ok s [] p h sent clean =
      ap (absorbed ok s h sent) (sym (ap split_lines (append-nil p) ∙ split_lines-clean p clean))
  run_loop-reads ok s (piece ∷ pieces) p h sent clean =
      let (b, bs) = piece in
      let c = split_lines (p ++ b ∷ bs) in
      let q = read_all pieces in
      ap (λ r. run_loop handler (map (reads s) pieces) r.0)
        (poll-reads s piece p h sent ∙ read_bytes-absorb ok s p h sent b bs)
      ∙ (run_loop-reads ok s pieces c.1 (absorb ok c.0 h sent).0 (absorb ok c.0 h sent).1
            (split_lines-IsCut (p ++ b ∷ bs)).2
          ∙ (absorbed-grown ok s h sent c q
              ∙ ap (absorbed ok s h sent) (
                  sym (split_lines-append (p ++ b ∷ bs) q)
                  ∙ ap split_lines (append_assoc p (b ∷ bs) q))))

  -- A poll that finds another file under the path: the unfinished line of the old one is dropped,
  -- the handler drops its group, and the new file is read as from its start.
  pub poll_rotated :
      (ok : NeverFails) (s : TailState) (dev ino : ℕ) (p : Bytes) (h : State) (sent : List Event)
      (calls : Calls) (b : ℕ) (bs : Bytes)
      → check_rotation handler calls (record s { pending = p }) ≡ true
      → calls.opened ≡ some (dev, ino)
      → calls.read ≡ some (b ∷ bs)
      → poll handler calls (at s p h sent) ≡ (
        absorbed ok
            (record { dev = dev; ino = ino; pending = [] })
            (handler.on_rotate h)
            sent
            (split_lines (b ∷ bs)),
        true,
      )
  unfolding poll reopen
  poll_rotated ok s dev ino p h sent calls b bs rotated opened read =
      rw (rotated, opened, read)
        (read_bytes-absorb ok (record { dev = dev; ino = ino; pending = [] }) []
          (handler.on_rotate h) sent b bs)
