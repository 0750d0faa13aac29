-- ===== src/Linux/Once.antt =====
-- The syslog and the Sysmon collector on one log.
use sigmacatch.Event.Payload.{Event}
use sigmacatch.Linux.Syslog.{
  Platform, SourceKind, SyslogRecord, line_events, on_line, handler, is_sysmon, parse_line,
}
use sigmacatch.Linux.Sysmon.{
  if_sysmon, sysmon_events, event_list, is_sysmon_record, on_sysmon_line, parse_sysmon_line,
  starts_with_text, sysmon_event, sysmon_handler,
}
use sigmacatch.Tail.{Bytes, LineHandler, TailState, run_loop}
use sigmacatch.Tail.Lines.{split_lines}
use sigmacatch.Tail.Polls.{NeverFails, absorb, at, read_all, reads, run_loop-reads}
use sigmacatch.Prelude.{
  Bool-cases, List, Option, [], ap, append-nil, append_assoc, arith, inl, inr, length,
  length-append, map, none, refl, some, sym, ℕ, ◌++◌, ◌+◌, ◌∙◌, ◌∷◌, ◌≡◌, ◌≤◌,
}

-- The events of some lines.
abbrev pub events_of_lines : (Bytes → List Event) → List Bytes → List Event
events_of_lines f [] = []
events_of_lines f (l ∷ ls) = f l ++ events_of_lines f ls

-- The handler that calls `f` on each line.
abbrev pub line_handler : (Bytes → List Event) → LineHandler Event
line_handler f = record {
  State = Unit {0};
  on_line = λ s line. (some (f line), s);
  on_idle = λ s. (some [], s);
  on_rotate = λ s. s;
}

module _ (f : Bytes → List Event) where
  never_fails : NeverFails (line_handler f)
  never_fails h line = (f line, refl)

  absorb-events_of_lines :
      (ls : List Bytes) (h : Unit {0}) (sent : List Event)
      → (absorb (line_handler f) never_fails ls h sent).1 ≡ sent ++ events_of_lines f ls
  unfolding absorb never_fails
  absorb-events_of_lines [] h sent = sym (append-nil sent)
  absorb-events_of_lines (l ∷ ls) h sent =
      absorb-events_of_lines ls h (sent ++ f l) ∙ append_assoc sent (f l) (events_of_lines f ls)

  sent-events_of_lines :
      (s : TailState) (pieces : List (ℕ × Bytes))
      → (run_loop
          (line_handler f)
          (map (reads (line_handler f) s) pieces)
          (at (line_handler f) s [] tt [])).channel.sent
        ≡ events_of_lines f (split_lines (read_all pieces)).0
  sent-events_of_lines s pieces =
      ap (λ t. t.channel.sent) (run_loop-reads (line_handler f) never_fails s pieces [] tt [] tt)
      ∙ absorb-events_of_lines (split_lines (read_all pieces)).0 tt []

module _ (platform : Platform) (kind : SourceKind) where
  event_list-le : (o : Option Event) → length (event_list platform o) ≤ 1
  event_list-le none = omega arith
  event_list-le (some e) = omega arith

  one_at_most :
      (line : Bytes) (o : Option SyslogRecord)
      → length (line_events platform kind line o)
          + length (sysmon_events platform line (if_sysmon platform o))
        ≤ 1
  unfolding is_sysmon_record
  one_at_most line none = omega arith
  one_at_most line (some r) = elim (Bool-cases (is_sysmon platform r.program)) [
    | inr other ↦ rw other (omega arith)
    | inl tagged ↦ elim (Bool-cases (starts_with_text "<Event>" r.message)) [
      | inl body ↦ rw (tagged, body) (omega (arith, event_list-le (sysmon_event platform line r)))
      | inr none_there ↦ rw (tagged, none_there) (omega arith)
    ]
  ]

  once :
      (ls : List Bytes)
      → length (events_of_lines (on_line platform kind) ls)
          + length (events_of_lines (on_sysmon_line platform) ls)
        ≤ length ls
  unfolding on_line on_sysmon_line parse_sysmon_line
  once [] = omega arith
  once (l ∷ ls) = omega (
    arith,
    once ls,
    one_at_most l (parse_line platform l),
    length-append (on_line platform kind l) (events_of_lines (on_line platform kind) ls),
    length-append (on_sysmon_line platform l) (events_of_lines (on_sysmon_line platform) ls),
  )

  -- The syslog and the Sysmon collector tail one log, each reading it in pieces of its own: each has
  -- sent the events of the complete lines in order, and together they have sent at most one event
  -- for each line.
  pub collectors_once :
      (s t : TailState) (pieces others : List (ℕ × Bytes))
      → read_all pieces ≡ read_all others
      → (let lines = (split_lines (read_all pieces)).0 in
          let syslog = handler platform kind in
          let sysmon = sysmon_handler platform in
          let sent =
            (run_loop syslog (map (reads syslog s) pieces) (at syslog s [] tt [])).channel.sent in
          let sent' =
            (run_loop sysmon (map (reads sysmon t) others) (at sysmon t [] tt [])).channel.sent in
          (sent ≡ events_of_lines (on_line platform kind) lines)
          × (sent' ≡ events_of_lines (on_sysmon_line platform) lines)
          × (length sent + length sent' ≤ length lines))
  collectors_once s t pieces others same =
      let lines = (split_lines (read_all pieces)).0 in
      let first = sent-events_of_lines (on_line platform kind) s pieces in
      let second =
        sent-events_of_lines (on_sysmon_line platform) t others
        ∙ ap (λ b. events_of_lines (on_sysmon_line platform) (split_lines b).0) (sym same) in
      (first, second, omega (arith, once lines, ap length first, ap length second))
