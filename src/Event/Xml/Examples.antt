-- ===== src/Event/Xml/Examples.antt =====
-- The views of an event's XML at concrete inputs.
use sigmacatch.Json.{number, string, object, end, field}
use sigmacatch.Event.Logsource.{json_event_id}
use sigmacatch.Event.Xml.Views.{
  Node, Nodes, element, text, comment, no_node, node, Attributes, Tag, event_node_to_value, text_of,
  trimmed,
}
use sigmacatch.Event.Xml.Parsing.{malformed, no_event, Parsed, parse_winevt_xml_both}
use sigmacatch.Event.Xml.Ids.{json_event_id-event_node_to_value}
use sigmacatch.Prelude.{String, [], inl, inr, none, refl, some, ◌∷◌, ◌≡◌}

abbrev ns : String
ns = "http://schemas.microsoft.com/win/2004/08/events/event"

abbrev tag : String → Attributes → Tag
tag n as' = record { name = n; namespace = some ns; namespaces = (none, ns) ∷ []; attributes = as' }

abbrev only : Node → Nodes
only n = node n no_node

-- `<EventID Qualifiers="0">400</EventID>` in the `System` element, between line ends.
abbrev system : Nodes
system = node (text "\n") (
    node (element (tag "EventID" (("Qualifiers", "0") ∷ [])) (only (text " 400 ")))
      (only (element (tag "EventRecordID" []) (only (text "17")))))

abbrev data_children : Nodes
data_children =
    node (element (tag "Data" (("Name", "Process Id") ∷ [])) (only (text "12")))
      (node (element (tag "Data" []) (only (text "x"))) (only (element (tag "Data" []) no_node)))

abbrev children : Nodes
children =
    node (element (tag "System" []) system) (only (element (tag "EventData" []) data_children))

trimmed_400 : trimmed (text_of (only (text " 400 "))) ≡ some "400"
unfolding trimmed
trimmed_400 = refl

event_id_example : json_event_id (event_node_to_value children) ≡ 0
event_id_example =
    json_event_id-event_node_to_value children (tag "System" [])
      (tag "EventID" (("Qualifiers", "0") ∷ [])) system (only (text " 400 ")) "400" refl refl refl
      trimmed_400

document : Nodes
document = node comment (only (element (tag "Event" []) children))

abbrev views : Parsed
views = inl (
  object (
      field "Event"
        (object (
          field "#attributes" (object (field "xmlns" (string ns) end)) (
            field "System"
              (object (
                field "EventID"
                  (object (
                    field "#attributes" (object (field "Qualifiers" (number 0) end))
                      (field "#text" (string "400") end)))
                  (field "EventRecordID" (number 17) end)))
              (field "EventData"
                (object (
                  field "Process Id" (number 12)
                    (field "Data0" (string "x") (field "Data1" (string "") end))))
                end))))
        end),
  object (
      field "Event"
        (object (
          field "System"
            (object (
              field "EventID"
                (object (
                  field "#attributes" (object (field "Qualifiers" (string "0") end))
                    (field "#text" (string "400") end)))
                (field "EventRecordID" (number 17) end)))
            (field "EventData"
              (object (
                field "ProcessId" (string "12")
                  (field "Data0" (string "x") (field "Data1" (string "") end))))
              end)))
        (field "_source" (string "winevt") end)),
)

parse_test : parse_winevt_xml_both (λ s. some document) "<Event/>" ≡ views
unfolding parse_winevt_xml_both document
parse_test = refl

errors_test :
    (parse_winevt_xml_both (λ s. none) "<" ≡ inr malformed)
    × (parse_winevt_xml_both (λ s. some no_node) "" ≡ inr no_event)
unfolding parse_winevt_xml_both
errors_test = (refl, refl)
