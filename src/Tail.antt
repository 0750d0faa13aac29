-- ===== src/Tail.antt =====
-- sigmacatch/src/inputs/tail.rs: the driver that reads appended bytes of a log file, finds
-- rotations and hands each complete line to a handler. What the calls of the operating system
-- return in a poll is its argument; sleeping and the start-up barrier are left out.
pub mod Lines
pub mod Polls
pub mod Examples
use sigmacatch.Prelude.{
  Bool, List, Option, [], false, if◌then◌else◌, length, none, not, some, suc, true, zero, ℕ, ◌++◌,
  ◌-◌, ◌==◌, ◌||◌, ◌∷◌,
}

abbrev pub Bytes : Type 0
Bytes = List ℕ

abbrev pub newline : ℕ
newline = 10

-- A result whose error message is not kept, with the state that the call leaves behind.
abbrev pub Outcome : Type 0 → Type 0 → Type 0
Outcome A S = Option A × S

-- The trait `LineHandler`: `&mut self` is the handler's state, passed on.
pub record LineHandler (Event : Type 0) : Type 1 where
  pub State : Type 0
  pub on_line : State → Bytes → Outcome (List Event) State
  pub on_idle : State → Outcome (List Event) State
  pub on_rotate : State → State

-- The sending end of the channel: what was sent, and how many more events are taken before the
-- receiver is dropped (`none`: it never is).
pub record Channel (Event : Type 0) : Type 0 where
  pub sent : List Event
  pub room : Option ℕ

-- `Sender::blocking_send`, and whether it succeeded.
unfoldable pub blocking_send : {Event : Type 0} → Channel Event → Event → Channel Event × Bool
blocking_send ch event = elim ch.room [
  | none ↦ (record ch { sent = ch.sent ++ event ∷ [] }, true)
  | some n ↦
      if n == 0
      then (ch, false)
      else (record { sent = ch.sent ++ event ∷ []; room = some (n - 1) }, true)
]

-- `TailState::send_all`
unfoldable pub send_all : {Event : Type 0} → List Event → Channel Event → Channel Event × Bool
unfolding blocking_send
send_all [] ch = (ch, true)
send_all (event ∷ events) ch =
    let (ch', taken) = blocking_send ch event in
    let rest = send_all events ch' in if taken then rest else (ch', false)

-- `TailState` without the file handle: its identity, and the bytes of an unfinished line.
pub record TailState : Type 0 where
  pub dev : ℕ
  pub ino : ℕ
  pub pending : Bytes

-- What the calls of one poll return: the identity of the path, the identity of the file opened
-- anew (`none`: it cannot be opened), and the next bytes (`none`: an error; empty: end of file).
pub record Calls : Type 0 where
  pub metadata : Option (ℕ × ℕ)
  pub opened : Option (ℕ × ℕ)
  pub read : Option Bytes

abbrev pub longer : ℕ → Option (Bytes × Bytes) → Option (Bytes × Bytes)
longer b none = none
longer b (some (line, left)) = some (b ∷ line, left)

-- `pending.iter().position(|&b| b == b'\n')` and `pending.drain(..=pos)`: the first line with its
-- newline, and what is left.
unfoldable pub drain_line : Bytes → Option (Bytes × Bytes)
drain_line [] = none
drain_line (b ∷ bs) =
    let rest = drain_line bs in if b == newline then some (b ∷ [], bs) else longer b rest

module _ {Event : Type 0} (handler : LineHandler Event) where
  open handler use {State, on_line, on_idle, on_rotate}

  pub record Tail : Type 0 where
    pub tail : TailState
    pub state : State
    pub channel : Channel Event

  -- The events of a handler's call go to the channel; the flag says that the receiver is there.
  unfoldable pub deliver :
      Outcome (List Event) State → Channel Event → Option Bool × State × Channel Event
  unfolding send_all
  deliver (none, h) ch = (none, h, ch)
  deliver (some events, h) ch = let (ch', open_) = send_all events ch in (some open_, h, ch')

  abbrev pub Drained : Type 0
  Drained = Bool × Bytes × State × Channel Event

  -- `handler.on_line(&line)?` and the `break` on a closed channel: what is drained stays drained.
  abbrev pub after : Option Bool → (left : Bytes) → State → Channel Event → Drained → Drained
  after none left h ch rest = (false, left, h, ch)
  after (some true) left h ch rest = rest
  after (some false) left h ch rest = (true, left, h, ch)

  -- `TailState::drain_lines`: the result, the pending bytes, the handler and the channel. Each
  -- round takes a byte at least, so the number of pending bytes is fuel enough.
  unfoldable pub drain_lines : (fuel : ℕ) → Bytes → State → Channel Event → Drained
  unfolding drain_line deliver
  drain_lines zero pending h ch = (true, pending, h, ch)
  drain_lines (suc fuel) pending h ch = elim (drain_line pending) [
    | none ↦ (true, pending, h, ch)
    | some (line, left) ↦
        let (result, h', ch') = deliver (on_line h line) ch in
        after result left h' ch' (drain_lines fuel left h' ch')
  ]

  -- `TailState::check_rotation`: an error counts as "no rotation".
  unfoldable pub check_rotation : Calls → TailState → Bool
  check_rotation calls s = elim calls.metadata [
    | none ↦ false
    | some (dev, ino) ↦ not (dev == s.dev) || not (ino == s.ino)
  ]

  -- `TailState::reopen`, and whether it succeeded; a new file is read from its start.
  unfoldable pub reopen : Calls → TailState → TailState × Bool
  reopen calls s = elim calls.opened [
    | none ↦ (s, false)
    | some (dev, ino) ↦ (record { dev = dev; ino = ino; pending = [] }, true)
  ]

  -- The part of `TailState::poll` from the read on.
  unfoldable pub read_bytes : Option Bytes → Tail → Tail × Bool
  unfolding drain_lines
  read_bytes none t = (t, false)
  read_bytes (some []) t = elim t.tail.pending [
    | [] ↦
        let (result, h, ch) = deliver (on_idle t.state) t.channel in
        (record t { state = h; channel = ch }, elim result [ none ↦ false | some _ ↦ true ])
    | _ ∷ _ ↦ (t, true)
  ]
  read_bytes (some (b ∷ bs)) t =
      let pending = t.tail.pending ++ b ∷ bs in
      let (done, left, h, ch) = drain_lines (length pending) pending t.state t.channel in
      (record { tail = record (t.tail) { pending = left }; state = h; channel = ch }, done)

  -- `TailState::poll`, and whether it returned `Ok`.
  unfoldable pub poll : Calls → Tail → Tail × Bool
  unfolding check_rotation reopen read_bytes
  poll calls t =
      let (tail, reopened) = reopen calls t.tail in
      let rotated = read_bytes calls.read (record t { tail = tail; state = on_rotate t.state }) in
      let same = read_bytes calls.read t in
      if check_rotation calls t.tail then (if reopened then rotated else (t, false)) else same

  abbrev is_closed : Channel Event → Bool
  is_closed ch = elim ch.room [ none ↦ false | some n ↦ n == 0 ]

  -- The loop of `run`: for each round the `stop` flag, and what the calls of its poll return. An
  -- error of a poll is logged.
  unfoldable pub run_loop : List (Bool × Calls) → Tail → Tail
  unfolding poll
  run_loop [] t = t
  run_loop ((stop, calls) ∷ rounds) t =
      let later = run_loop rounds (poll calls t).0 in
      if stop || is_closed t.channel then t else later

  -- `run` on a file that was opened, with this identity: one poll, then the loop.
  unfoldable pub run :
      (identity : ℕ × ℕ) → (first : Calls) → List (Bool × Calls) → State → Channel Event → Tail
  unfolding run_loop
  run (dev, ino) first rounds h ch =
      let start : Tail = record {
        tail = record { dev = dev; ino = ino; pending = [] };
        state = h;
        channel = ch;
      } in
      run_loop rounds (poll first start).0
