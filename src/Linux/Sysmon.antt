-- ===== src/Linux/Sysmon.antt =====
-- sigmacatch/src/inputs/sysmon_parse.rs and the handler of sysmon.rs: the lines of Sysmon for Linux.
use Prim.Native.Char.{code}
use sigmacatch.Text.{to_ascii_lowercase}
use sigmacatch.Event.Payload.{Event, new_injected}
use sigmacatch.Event.Xml.Parsing.{Parsed, parse_winevt_xml_both}
use sigmacatch.Linux.Syslog.{Platform, SyslogRecord, parse_line}
use sigmacatch.Tail.{LineHandler}
use sigmacatch.Prelude.{
  Bool, List, Option, String, [], false, if◌then◌else◌, inl, inr, none, some, str_eq, true, ℕ, ◌&&◌,
  ◌==◌, ◌∷◌,
}

-- `str::starts_with`
unfoldable pub starts_with_text : String → String → Bool
starts_with_text String.[] s = true
starts_with_text (String.◌∷◌ c p) String.[] = false
starts_with_text (String.◌∷◌ c p) (String.◌∷◌ d s) = (code c == code d) && starts_with_text p s

module _ (platform : Platform) where
  open platform use {parse_xml}

  unfoldable pub is_sysmon_record : SyslogRecord → Bool
  unfolding to_ascii_lowercase starts_with_text
  is_sysmon_record r =
      str_eq (to_ascii_lowercase r.program) "sysmon" && starts_with_text "<Event>" r.message

  abbrev pub if_sysmon : Option SyslogRecord → Option SyslogRecord
  if_sysmon none = none
  if_sysmon (some r) = if is_sysmon_record r then some r else none

  -- `parse_line` of sysmon_parse.rs
  unfoldable pub parse_sysmon_line : List ℕ → Option SyslogRecord
  unfolding parse_line is_sysmon_record
  parse_sysmon_line line = if_sysmon (parse_line platform line)

  abbrev pub event_of_views : List ℕ → Parsed → Option Event
  event_of_views raw (inr e) = none
  event_of_views raw (inl (json_raw, json)) = some (new_injected json_raw json raw "linux" none)

  -- `record_to_event` of sysmon_parse.rs
  unfoldable pub sysmon_event : List ℕ → SyslogRecord → Option Event
  unfolding parse_winevt_xml_both new_injected
  sysmon_event raw r = event_of_views raw (parse_winevt_xml_both parse_xml r.message)

  abbrev pub event_list : Option Event → List Event
  event_list none = []
  event_list (some e) = e ∷ []

  abbrev pub sysmon_events : List ℕ → Option SyslogRecord → List Event
  sysmon_events line none = []
  sysmon_events line (some r) = event_list (sysmon_event line r)

  -- `SysmonHandler::on_line`; it never fails.
  unfoldable pub on_sysmon_line : List ℕ → List Event
  unfolding parse_sysmon_line sysmon_event
  on_sysmon_line line = sysmon_events line (parse_sysmon_line line)

  abbrev pub sysmon_handler : LineHandler Event
  sysmon_handler = record {
    State = Unit {0};
    on_line = λ s line. (some (on_sysmon_line line), s);
    on_idle = λ s. (some [], s);
    on_rotate = λ s. s;
  }
