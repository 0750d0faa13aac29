-- ===== src/Auditd/Examples.antt =====
-- The auditd collector at concrete inputs.
use sigmacatch.Json.{end}
use sigmacatch.Tail.{Bytes, TailState, poll, run_loop}
use sigmacatch.Tail.Lines.{split_lines}
use sigmacatch.Tail.Polls.{at, read_all, reads}
use sigmacatch.Auditd.Values.{no_pairs, Message, Record, parse_line}
use sigmacatch.Auditd.RawFields.{line_pairs}
use sigmacatch.Auditd.RawFields.RoundTrip.{IsPair, line_pairs-write_pairs, write_pairs, written}
use sigmacatch.Auditd.Handler.{Platform, auditd, group_events, new_handler}
use sigmacatch.Auditd.Groups.{Parsed, emitted, emitted-runs, events_of, runs}
use sigmacatch.Auditd.Pipeline.{idle, log_events, records_of}
use sigmacatch.Prelude.{List, Option, [], arith, map, none, refl, some, ℕ, ◌++◌, ◌∷◌, ◌≡◌}

-- `1\n`, `1\n` and `2\n` are the records of two groups; the id is the first byte of a line.
abbrev message_of : List ℕ → Option Message
message_of [] = none
message_of (b ∷ bs) = some (record {
  id = record { timestamp = 0; sequence = b };
  node = none;
  ty = "SYSCALL";
  body = no_pairs;
})

abbrev platform : Platform
platform = record { parse = message_of; lossy = λ bs. ""; utf8 = λ s. [] }

abbrev log_file : TailState
log_file = record { dev = 1; ino = 2; pending = [] }

abbrev pieces : List (ℕ × Bytes)
pieces = (49, 10 ∷ 49 ∷ []) ∷ (10, 50 ∷ 10 ∷ []) ∷ []

ends : (split_lines (read_all pieces)).1 ≡ []
unfolding split_lines
ends = refl

log_events_example :
    (let read =
        run_loop
          (auditd platform)
          (map (reads (auditd platform) log_file) pieces)
          (at (auditd platform) log_file [] new_handler []) in
      (poll (auditd platform) (idle platform log_file) read).0.channel.sent
      ≡ [] ++ events_of platform (runs (records_of platform (split_lines (read_all pieces)).0)))
log_events_example = log_events platform log_file pieces [] ends

-- Three events; the first two carry the lines of both records of their group.
log_test :
    map
      (λ e. e.event_raw)
      (events_of platform (runs (records_of platform (split_lines (read_all pieces)).0)))
    ≡ (49 ∷ 10 ∷ 49 ∷ 10 ∷ []) ∷ (49 ∷ 10 ∷ 49 ∷ 10 ∷ []) ∷ (50 ∷ 10 ∷ []) ∷ []
unfolding events_of runs records_of split_lines group_events parse_line
log_test = refl

abbrev record_of : ℕ → Record
record_of n = record {
  id = record { timestamp = 0; sequence = n };
  node = none;
  ty = "SYSCALL";
  fields = end;
}

abbrev parsed : List Parsed
parsed = (record_of 1, 49 ∷ []) ∷ (record_of 1, 50 ∷ []) ∷ (record_of 2, 51 ∷ []) ∷ []

emitted_example : emitted platform new_handler parsed ≡ events_of platform (runs parsed)
emitted_example = emitted-runs platform parsed

-- `a=b` and `c=de`
abbrev two_pairs : List ((ℕ × List ℕ) × (ℕ × List ℕ))
two_pairs = ((97, []), (98, [])) ∷ ((99, []), (100, 101 ∷ [])) ∷ []

first-IsPair : IsPair ((97, []), (98, []))
first-IsPair = record {
  start = λ e. omega arith;
  key_start = λ e. omega arith;
  key = tt;
  value_start = λ e. omega arith;
  value = tt;
}

second-IsPair : IsPair ((99, []), (100, 101 ∷ []))
second-IsPair = record {
  start = λ e. omega arith;
  key_start = λ e. omega arith;
  key = tt;
  value_start = λ e. omega arith;
  value = (λ e. omega arith, tt);
}

line_pairs_example :
    line_pairs ((49 ∷ []) ++ b')' ∷ b':' ∷ b' ' ∷ write_pairs two_pairs) ≡ map written two_pairs
line_pairs_example =
    line_pairs-write_pairs (49 ∷ []) two_pairs (λ e. omega arith, tt)
      (first-IsPair, (second-IsPair, tt))
