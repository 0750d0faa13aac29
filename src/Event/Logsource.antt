-- ===== src/Event/Logsource.antt =====
-- `resolve_logsource_fields` and `with_injected_logsource` of sigmacatch/src/types.rs.
pub mod Laws
use sigmacatch.Json.{Json, object, number, string, Fields, as_str, get, get_path, insert, ◌>>=◌}
use sigmacatch.Event.Services.{channel_to_service, lookup}
use sigmacatch.Event.Categories.{
  channel_event_to_category, channel_event_to_subcategory, lookup_event, provider_to_channel,
}
use sigmacatch.Event.Decimal.{parse_u64}
use sigmacatch.Event.EventData.{eventdata_to_string}
use sigmacatch.Prelude.{
  Bool, Option, String, [], false, if◌then◌else◌, none, some, str_eq, ℕ, ◌%◌, ◌&&◌, ◌^◌, ◌||◌, ◌∷◌,
}

abbrev pub or_else {ℓ} : {A : Type ℓ} → Option A → Option A → Option A
or_else (some a) o = some a
or_else none o = o

abbrev pub unwrap_or {ℓ} : {A : Type ℓ} → Option A → A → A
unwrap_or none d = d
unwrap_or (some a) d = a

-- `n as u32` of a `u64`, and `s.parse::<u64>().ok().unwrap_or(0) as u32`
abbrev pub as_u32 : ℕ → ℕ
as_u32 n = n % 2 ^ 32

abbrev pub parsed_u32 : String → ℕ
parsed_u32 s = as_u32 (unwrap_or (parse_u64 s) 0)

abbrev pub as_u64 : Json → Option ℕ
as_u64 (number n) = some n
as_u64 Json.null = none
as_u64 _ = none

-- The value under an inner `EventID`.
abbrev pub inner_event_id : Option Json → ℕ
inner_event_id (some (number n)) = as_u32 n
inner_event_id (some (string s)) = parsed_u32 s
inner_event_id (some (object o)) = as_u32 (unwrap_or (get "#text" o >>= as_u64) 0)
inner_event_id none = 0
inner_event_id _ = 0

abbrev pub event_id_of : Option Json → ℕ
event_id_of (some (number n)) = as_u32 n
event_id_of (some (string s)) = parsed_u32 s
event_id_of (some (object o)) = inner_event_id (get "EventID" o)
event_id_of none = 0
event_id_of _ = 0

unfoldable pub json_event_id : Json → ℕ
unfolding get_path get parse_u64
json_event_id json = event_id_of (get_path ("Event" ∷ "System" ∷ "EventID" ∷ []) json)

unfoldable pub json_provider : Json → String
unfolding get_path as_str
json_provider json =
    unwrap_or
      (get_path ("Event" ∷ "System" ∷ "Provider" ∷ "#attributes" ∷ "Name" ∷ []) json >>= as_str) ""

unfoldable pub json_channel : Json → String
unfolding get_path as_str
json_channel json =
    unwrap_or
      (or_else (get_path ("Event" ∷ "System" ∷ "Channel" ∷ []) json >>= as_str)
        (get_path ("Channel" ∷ []) json >>= as_str))
      ""

unfoldable pub is_registry_delete_event_type : Json → Bool
unfolding get_path as_str
is_registry_delete_event_type json =
    elim (get_path ("Event" ∷ "EventData" ∷ "EventType" ∷ []) json >>= as_str) [
      | none ↦ false
      | some s ↦ str_eq s "DeleteKey" || str_eq s "DeleteValue"
    ]

unfoldable pub is_registry_subcategory : String → Bool
is_registry_subcategory c =
    str_eq c "registry_add"
    || (str_eq c "registry_set" || (str_eq c "registry_rename" || str_eq c "registry_delete"))

unfoldable pub get_category : String → ℕ → Option String
unfolding lookup_event channel_event_to_category channel_event_to_subcategory
get_category channel event_id =
    let c =
      if str_eq channel "Linux-Sysmon/Operational"
      then "Microsoft-Windows-Sysmon/Operational"
      else channel in
    or_else (lookup_event c event_id channel_event_to_subcategory)
      (lookup_event c event_id channel_event_to_category)

unfoldable pub category_exclusive_sentinel : String → Option String
category_exclusive_sentinel channel =
    if str_eq channel "Microsoft-Windows-PowerShell/Operational"
      || (str_eq channel "PowerShellCore/Operational" || str_eq channel "Windows PowerShell")
    then some "ps_other"
    else none

pub record LogsourceFields : Type 0 where
  pub service : Option String
  pub category : Option String
  pub ps_data : Option String

-- `CHANNEL_TO_SERVICE.get(channel)`, else the provider's channel's service
unfoldable pub service_of_channel : String → String → Option String
unfolding lookup channel_to_service provider_to_channel
service_of_channel channel provider =
    or_else (lookup channel channel_to_service)
      (lookup provider provider_to_channel >>= λ ch. lookup ch channel_to_service)

-- The refinement of `registry_add` by the event type.
abbrev pub refine_category : Json → String → String
refine_category json c =
    if str_eq c "registry_add" && is_registry_delete_event_type json then "registry_delete" else c

abbrev pub drop_subcategory : Option String → Option String
drop_subcategory none = none
drop_subcategory (some c) = if is_registry_subcategory c then none else some c

unfoldable pub resolve_category : Json → String → ℕ → Option String
unfolding get_category category_exclusive_sentinel is_registry_delete_event_type
    is_registry_subcategory
resolve_category json channel event_id = drop_subcategory (
    or_else (get_category channel event_id >>= λ c. some (refine_category json c))
      (category_exclusive_sentinel channel))

abbrev pub wants_data : Option String → Bool
wants_data none = false
wants_data (some c) = str_eq c "ps_classic_start" || str_eq c "ps_classic_script"

-- `if let Some(s) = o { map.insert(k, Value::String(s)) }`
unfoldable pub put : String → Option String → Fields → Fields
put k none fs = fs
put k (some s) fs = insert k (string s) fs

unfoldable pub resolve_logsource_fields : Json → Option String → LogsourceFields
unfolding eventdata_to_string json_channel json_provider json_event_id service_of_channel
    resolve_category
resolve_logsource_fields json service =
    let channel = json_channel json in
    let category = resolve_category json channel (json_event_id json) in
    record {
      service = or_else service (service_of_channel channel (json_provider json));
      category = category;
      ps_data = if wants_data category then eventdata_to_string json else none;
    }

unfoldable pub with_injected_logsource : Json → String → Option String → Json
unfolding resolve_logsource_fields insert put
with_injected_logsource (object fs) product service =
    let found = resolve_logsource_fields (object fs) service in
    object (
      put "Data" found.ps_data (
        put "category" found.category
          (put "service" found.service (insert "product" (string product) fs))))
with_injected_logsource Json.null product service = Json.null
with_injected_logsource json product service = json
