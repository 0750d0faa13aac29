-- ===== src/Linux/Examples.antt =====
-- The Linux collectors at concrete inputs.
use sigmacatch.Event.Xml.Views.{element, no_node, node, Tag}
use sigmacatch.Linux.Syslog.{auth, Captures, Platform, handler, on_line}
use sigmacatch.Linux.Sysmon.{on_sysmon_line, sysmon_handler}
use sigmacatch.Linux.Sources.{
  finished, errored, any_finished, mode_for, run_collectors, run_collectors-any_finished,
  select_collectors,
}
use sigmacatch.Linux.Once.{collectors_once, events_of_lines}
use sigmacatch.Tail.{Bytes, TailState, run_loop}
use sigmacatch.Tail.Lines.{split_lines}
use sigmacatch.Tail.Polls.{at, read_all, reads}
use sigmacatch.Prelude.{
  List, Option, String, [], false, if◌then◌else◌, length, map, none, refl, some, str_eq, true, ℕ,
  ◌+◌, ◌==◌, ◌↔◌, ◌∷◌, ◌≡◌, ◌≤◌,
}

-- A line that begins with `s` is one of Sysmon, one with `x` has no program.
abbrev captures_of : List ℕ → Option Captures
captures_of [] = none
captures_of (b ∷ bs) =
    if b == 120
    then none
    else some (record {
      host = some "h";
      program = if b == 115 then "Sysmon" else "sshd";
      msg = some "<Event></Event>";
    })

abbrev text_of_bytes : List ℕ → Option String
text_of_bytes [] = none
text_of_bytes (b ∷ bs) = some (if b == 115 then "s" else (if b == 120 then "x" else "l"))

abbrev captures_text : String → Option Captures
captures_text s =
    captures_of (if str_eq s "s" then 115 ∷ [] else (if str_eq s "x" then 120 ∷ [] else 108 ∷ []))

abbrev event_tag : Tag
event_tag = record { name = "Event"; namespace = none; namespaces = []; attributes = [] }

abbrev platform : Platform
platform = record {
  from_utf8 = text_of_bytes;
  captures = captures_text;
  to_lowercase = λ s. s;
  parse_xml = λ s. some (node (element event_tag no_node) no_node);
}

abbrev here : TailState
here = record { dev = 1; ino = 2; pending = [] }

-- `s\nl\nx\n`, cut in two ways
abbrev pieces : List (ℕ × Bytes)
pieces = (115, 10 ∷ 108 ∷ []) ∷ (10, 120 ∷ 10 ∷ []) ∷ []

abbrev others : List (ℕ × Bytes)
others = (115, 10 ∷ 108 ∷ 10 ∷ 120 ∷ 10 ∷ []) ∷ []

once_example :
    (let lines = (split_lines (read_all pieces)).0 in
      let syslog = handler platform auth in
      let sysmon = sysmon_handler platform in
      let sent =
        (run_loop syslog (map (reads syslog here) pieces) (at syslog here [] tt [])).channel.sent in
      let sent' =
        (run_loop sysmon (map (reads sysmon here) others) (at sysmon here [] tt [])).channel.sent in
      (sent ≡ events_of_lines (on_line platform auth) lines)
      × (sent' ≡ events_of_lines (on_sysmon_line platform) lines)
      × (length sent + length sent' ≤ length lines))
once_example = collectors_once platform auth here here pieces others refl

-- Of the three lines each collector emits one.
once_test :
    (length (on_line platform auth (115 ∷ 10 ∷ [])) ≡ 0)
    × (length (on_sysmon_line platform (115 ∷ 10 ∷ [])) ≡ 1)
    × (length (on_line platform auth (108 ∷ 10 ∷ [])) ≡ 1)
    × (length (on_sysmon_line platform (108 ∷ 10 ∷ [])) ≡ 0)
    × (length (on_line platform auth (120 ∷ 10 ∷ [])) ≡ 0)
unfolding on_line on_sysmon_line
once_test = (refl, refl, refl, refl, refl)

sources_test :
    (run_collectors (("auditd", errored) ∷ ("syslog", finished) ∷ []) ≡ none)
    × (mode_for true false true ≡ "linux auditd+sysmon(ebpf)")
    × (select_collectors
          (record { auditd = true; builtin = true; sysmon = true; ebpf = true })
          false
          false
          true
        ≡ "syslog" ∷ "sysmon" ∷ [])
unfolding run_collectors mode_for select_collectors
sources_test = (refl, refl, refl)

any_finished_example :
    (run_collectors (("auditd", errored) ∷ ("syslog", finished) ∷ []) ≡ none)
    ↔ (any_finished (("auditd", errored) ∷ ("syslog", finished) ∷ []) ≡ true)
any_finished_example = run_collectors-any_finished (("auditd", errored) ∷ ("syslog", finished) ∷ [])
