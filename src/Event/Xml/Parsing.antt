-- ===== src/Event/Xml/Parsing.antt =====
-- `parse_winevt_xml_both` of sigmacatch/src/types.rs: the event of a document in both views.
use Prim.Native.String.{len}
use sigmacatch.Json.{Json}
use sigmacatch.Event.Xml.Views.{
  Nodes, Tag, element, text, comment, no_node, node, event_node_to_value, event_node_to_value_raw,
}
use sigmacatch.Prelude.{Option, String, if◌then◌else◌, inl, inr, ltb, none, some, str_eq, ℕ, ◌⊎◌}

pub data ParseError : Type 0 where
  too_large : ℕ → ParseError
  malformed : ParseError
  no_event : ParseError

abbrev pub or_found : Option (Tag × Nodes) → Option (Tag × Nodes) → Option (Tag × Nodes)
or_found (some e) later = some e
or_found none later = later

-- `descendants().find(…)`, in document order.
unfoldable pub find_event : Nodes → Option (Tag × Nodes)
find_event no_node = none
find_event (node (text s) ns) = find_event ns
find_event (node comment ns) = find_event ns
find_event (node (element t cs) ns) =
    let inside = or_found (find_event cs) (find_event ns) in
    if str_eq t.name "Event" then some (t, cs) else inside

abbrev pub max_xml_size : ℕ
max_xml_size = 1048576

-- Both views, or the error.
abbrev pub Parsed : Type 0
Parsed = (Json × Json) ⊎ ParseError

abbrev pub both_views : Option (Tag × Nodes) → Parsed
unfolding event_node_to_value event_node_to_value_raw
both_views none = inr no_event
both_views (some (t, cs)) = inl (event_node_to_value_raw t cs, event_node_to_value cs)

abbrev pub views_of : Option Nodes → Parsed
unfolding event_node_to_value event_node_to_value_raw find_event
views_of none = inr malformed
views_of (some document) = both_views (find_event document)

-- `parse_winevt_xml_both`, over `Document::parse`, which gives the children of the root.
unfoldable pub parse_winevt_xml_both : (parse : String → Option Nodes) → String → Parsed
unfolding event_node_to_value event_node_to_value_raw find_event
parse_winevt_xml_both parse xml =
    if ltb max_xml_size (len xml) then inr (too_large (len xml)) else views_of (parse xml)
