-- ===== src/Event/Payload.antt =====
-- `Event` of sigmacatch/src/types.rs, and its constructors. Sharing by `Arc` is left out: nothing
-- mutates a payload that is shared.
use sigmacatch.Json.{Json, object, get_path, ◌>>=◌}
use sigmacatch.Event.Xml.Views.{Nodes}
use sigmacatch.Event.Xml.Parsing.{ParseError, Parsed, parse_winevt_xml_both}
use sigmacatch.Event.Logsource.{with_injected_logsource, as_u64}
use sigmacatch.Prelude.{
  Bool, List, Option, String, [], false, if◌then◌else◌, inl, inr, none, true, ℕ, ◌∷◌, ◌⊎◌,
}

pub record Event : Type 0 where
  pub event_json_raw : Json
  pub event_json : Json
  pub event_raw : List ℕ
  pub event_json_raw_all : Option (List Json)

-- `Event::new`
unfoldable pub new_event : Json → Json → List ℕ → Event
new_event json_raw json raw = record {
  event_json_raw = json_raw;
  event_json = json;
  event_raw = raw;
  event_json_raw_all = none;
}

-- `Event::new_injected`
unfoldable pub new_injected : Json → Json → List ℕ → String → Option String → Event
unfolding with_injected_logsource
new_injected json_raw json raw product service = record {
  event_json_raw = json_raw;
  event_json = with_injected_logsource json product service;
  event_raw = raw;
  event_json_raw_all = none;
}

abbrev pub EventResult : Type 0
EventResult = Event ⊎ ParseError

abbrev pub event_of : List ℕ → Parsed → EventResult
event_of raw (inr e) = inr e
event_of raw (inl (json_raw, json)) = inl (record {
  event_json_raw = json_raw;
  event_json = json;
  event_raw = raw;
  event_json_raw_all = none;
})

-- `Event::from_xml`, over the parser of roxmltree and the bytes of a text
unfoldable pub from_xml :
    (parse : String → Option Nodes) → (utf8 : String → List ℕ) → String → EventResult
unfolding parse_winevt_xml_both
from_xml parse utf8 xml = event_of (utf8 xml) (parse_winevt_xml_both parse xml)

abbrev pub injected : String → Option String → Parsed → Parsed
unfolding with_injected_logsource
injected product service (inr e) = inr e
injected product service (inl (json_raw, json)) =
    inl (json_raw, with_injected_logsource json product service)

-- `Event::from_xml_injected`
unfoldable pub from_xml_injected :
    (parse : String → Option Nodes)
    → (utf8 : String → List ℕ) → String
    → String
    → Option String
    → EventResult
unfolding parse_winevt_xml_both with_injected_logsource
from_xml_injected parse utf8 xml product service =
    event_of (utf8 xml) (injected product service (parse_winevt_xml_both parse xml))

-- `Event::record_id`
unfoldable pub record_id : Event → Option ℕ
unfolding get_path
record_id e = get_path ("Event" ∷ "System" ∷ "EventRecordID" ∷ []) e.event_json >>= as_u64

abbrev pub is_object : Json → Bool
is_object (object fs) = true
is_object Json.null = false
is_object _ = false

-- `Event::inject_logsource_fields_for`
unfoldable pub inject_logsource_fields_for : String → Option String → Event → Event
unfolding with_injected_logsource
inject_logsource_fields_for product service e =
    if is_object e.event_json
    then record e { event_json = with_injected_logsource e.event_json product service }
    else e

-- `Event::inject_logsource_fields`
unfoldable pub inject_logsource_fields : Event → Event
unfolding inject_logsource_fields_for
inject_logsource_fields e = inject_logsource_fields_for "windows" none e
