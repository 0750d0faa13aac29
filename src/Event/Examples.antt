-- ===== src/Event/Examples.antt =====
-- The logsource fields of concrete events.
use sigmacatch.Event.EventData.{eventdata_to_string}
use sigmacatch.Event.Tables.{channel_to_service-service_channels}
use sigmacatch.Event.Services.{channel_to_service, lookup, service_channels}
use sigmacatch.Json.{string, number, object, end, field, Fields, Json, get, get_key, get_path}
use sigmacatch.Event.Logsource.{
  is_registry_subcategory, json_channel, json_event_id, resolve_category, resolve_logsource_fields,
  with_injected_logsource, json_provider, or_else, service_of_channel, wants_data,
}
use sigmacatch.Event.Logsource.Laws.{
  classic_powershell_qualified, get_key-with_injected_logsource, json_event_id_qualified, read_put,
  resolve_category-ne-subcategory,
}
use sigmacatch.Prelude.{[], false, if◌then◌else◌, none, refl, some, ◌∷◌, ◌≡◌}

-- `<EventID Qualifiers="0">400</EventID>` of the channel `Windows PowerShell`, as JSON.
abbrev id_with_qualifiers : Fields
id_with_qualifiers = field "#text" (string "400") end

abbrev system : Fields
system =
    field "EventID" (object id_with_qualifiers) (field "Channel" (string "Windows PowerShell") end)

abbrev classic : Json
classic = object (field "Event" (object (field "System" (object system) end)) end)

id_found : get_path ("Event" ∷ "System" ∷ "EventID" ∷ []) classic ≡ some (object id_with_qualifiers)
unfolding get_path
id_found = refl

no_inner : get "EventID" id_with_qualifiers ≡ none
unfolding get
no_inner = refl

classic_channel : json_channel classic ≡ "Windows PowerShell"
unfolding json_channel
classic_channel = refl

json_event_id_example : json_event_id classic ≡ 0
json_event_id_example = json_event_id_qualified classic id_with_qualifiers id_found no_inner

classic_powershell_example : (resolve_logsource_fields classic none).category ≡ some "ps_other"
classic_powershell_example =
    classic_powershell_qualified classic id_with_qualifiers none id_found no_inner classic_channel

-- The same event without the qualifiers is the start of an engine.
abbrev plain : Json
plain = object (
    field "Event"
      (object (
        field "System"
          (object
            (field "EventID" (number 400) (field "Channel" (string "Windows PowerShell") end)))
          end))
      end)

plain_test : (resolve_logsource_fields plain none).category ≡ some "ps_classic_start"
unfolding resolve_logsource_fields
plain_test = refl

start_resolved : resolve_category plain "Windows PowerShell" 400 ≡ some "ps_classic_start"
unfolding resolve_category
start_resolved = refl

resolve_category_example : is_registry_subcategory "ps_classic_start" ≡ false
resolve_category_example =
    resolve_category-ne-subcategory plain "Windows PowerShell" 400 "ps_classic_start" start_resolved

abbrev login : Fields
login = field "user" (string "root") end

get_key_example :
    get_key "service" (with_injected_logsource (object login) "linux" (some "auditd")) ≡ (
      let json = object login in
      let channel = json_channel json in
      let category = resolve_category json channel (json_event_id json) in
      read_put "Data" (if wants_data category then eventdata_to_string json else none) "service" (
        read_put "category" category "service" (
          read_put "service"
            (or_else (some "auditd") (service_of_channel channel (json_provider json)))
            "service"
            (get "service" login))))
unfolding with_injected_logsource resolve_logsource_fields
get_key_example = get_key-with_injected_logsource login "linux" (some "auditd") "service"

application_row : lookup "application" service_channels ≡ some ("Application" ∷ [])
unfolding lookup service_channels
application_row = refl

channel_to_service_example : lookup "Application" channel_to_service ≡ some "application"
channel_to_service_example =
    channel_to_service-service_channels "application" "Application" ("Application" ∷ [])
      application_row refl
