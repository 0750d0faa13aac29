-- ===== src/Auditd/Pipeline.antt =====
-- The tail driver with the handler of auditd.rs: from the bytes of a log to its events.
use sigmacatch.Tail.Lines.{split_lines}
use sigmacatch.Auditd.Groups.{emitted, events_of, runs, emitted-runs}
use sigmacatch.Event.Payload.{Event}
use sigmacatch.Tail.{Bytes, Calls, TailState, deliver, poll, run_loop, check_rotation, read_bytes}
use sigmacatch.Tail.Polls.{NeverFails, absorb, at, read_all, reads, run_loop-reads, send_all-open}
use sigmacatch.Auditd.Values.{Record, parse_line}
use sigmacatch.Auditd.Handler.{
  AuditdHandler, Platform, auditd, on_line, on_record, flush_group, on_parsed, new_handler, on_idle,
}
use sigmacatch.Prelude.{
  ==_refl, List, Option, [], ap, append-nil, append_assoc, map, none, refl, some, ℕ, ◌++◌, ◌∙◌, ◌∷◌,
  ◌≡◌,
}

module _ (platform : Platform) where
  open platform use {parse, lossy}

  abbrev with_record : Option Record → Bytes → List (Record × Bytes) → List (Record × Bytes)
  with_record none l rest = rest
  with_record (some r) l rest = (r, l) ∷ rest

  -- The records of some lines, each with its line; other lines are passed over.
  unfoldable pub records_of : List Bytes → List (Record × Bytes)
  records_of [] = []
  records_of (l ∷ ls) = with_record (parse_line lossy parse l) l (records_of ls)

  pub auditd_never_fails : NeverFails (auditd platform)
  unfolding on_line
  auditd_never_fails h l = ((on_parsed platform h l (parse_line lossy parse l)).0, refl)

  -- What was sent and what an idle poll adds, behind some lines.
  abbrev Flushed : AuditdHandler × List Event → List Event → Type 0
  Flushed (h, sent) total = sent ++ (flush_group platform h).1 ≡ total

  module _ (ls : List Bytes)
      (ih : (h : AuditdHandler) (sent : List Event)
        → Flushed
            (absorb (auditd platform) auditd_never_fails ls h sent)
            (sent ++ emitted platform h (records_of ls))) where
    absorb_step :
        (h : AuditdHandler) (sent : List Event) (l : Bytes) (o : Option Record)
        → (let (out, h') = on_parsed platform h l o in
            Flushed
              (absorb (auditd platform) auditd_never_fails ls h' (sent ++ out))
              (sent ++ emitted platform h (with_record o l (records_of ls))))
    unfolding emitted
    absorb_step h sent l none = rw append-nil (ih h sent)
    absorb_step h sent l (some r) =
        let (out, h') = on_record platform h l r in
        ih h' (sent ++ out) ∙ append_assoc sent out (emitted platform h' (records_of ls))

  absorb-emitted :
      (lines : List Bytes) (h : AuditdHandler) (sent : List Event)
      → Flushed
          (absorb (auditd platform) auditd_never_fails lines h sent)
          (sent ++ emitted platform h (records_of lines))
  unfolding absorb auditd_never_fails records_of emitted on_line
  absorb-emitted [] h sent = refl
  absorb-emitted (l ∷ ls) h sent =
      absorb_step ls (absorb-emitted ls) h sent l (parse_line lossy parse l)

  -- An idle poll: nothing new in the same file.
  abbrev pub idle : TailState → Calls
  idle s = record { metadata = some (s.dev, s.ino); opened = none; read = some [] }

  poll-idle :
      (s : TailState) (h : AuditdHandler) (sent : List Event)
      → (poll (auditd platform) (idle s) (at (auditd platform) s [] h sent)).0.channel.sent
        ≡ sent ++ (flush_group platform h).1
  unfolding poll on_idle deliver read_bytes check_rotation
  poll-idle s h sent =
      rw (==_refl s.dev, ==_refl s.ino)
        (ap (λ r. r.0.sent) (send_all-open (flush_group platform h).1 sent))

  -- A log that is read from a fresh handler, in whatever pieces, up to the end of a line, and then
  -- polled once more while idle: the channel has received, for every record of the log in order, one
  -- event with the lines of all records of its run of equal ids.
  pub log_events :
      (s : TailState) (pieces : List (ℕ × Bytes)) (sent : List Event)
      → (split_lines (read_all pieces)).1 ≡ []
      → (let read =
            run_loop
              (auditd platform)
              (map (reads (auditd platform) s) pieces)
              (at (auditd platform) s [] new_handler sent) in
          (poll (auditd platform) (idle s) read).0.channel.sent
          ≡ sent ++ events_of platform (runs (records_of (split_lines (read_all pieces)).0)))
  log_events s pieces sent ends =
      let lines = (split_lines (read_all pieces)).0 in
      let ok = auditd_never_fails in
      let got = absorb (auditd platform) ok lines new_handler sent in
      ap (λ t. (poll (auditd platform) (idle s) t).0.channel.sent)
        (run_loop-reads (auditd platform) ok s pieces [] new_handler sent tt)
      ∙ (ap
            (λ p.
              (poll (auditd platform) (idle s)
                (at (auditd platform) s p got.0 got.1)).0.channel.sent)
            ends
          ∙ (poll-idle s got.0 got.1
              ∙ (absorb-emitted lines new_handler sent
                  ∙ ap (λ e. sent ++ e) (emitted-runs platform (records_of lines)))))
