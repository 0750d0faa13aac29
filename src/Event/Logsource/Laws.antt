-- ===== src/Event/Logsource/Laws.antt =====
-- What the injection of the logsource fields promises.
use sigmacatch.Json.{
  Json, object, string, Fields, get, get-insert, get_key, insert, ◌>>=◌, get_path,
}
use sigmacatch.Event.EventData.{eventdata_to_string}
use sigmacatch.Event.Logsource.{
  category_exclusive_sentinel, drop_subcategory, get_category, is_registry_subcategory, or_else,
  refine_category, resolve_category, with_injected_logsource, json_channel, json_event_id, put,
  resolve_logsource_fields, event_id_of, inner_event_id, json_provider, service_of_channel,
  wants_data,
}
use sigmacatch.Prelude.{
  Bool-cases, Option, String, [], ap, false, if◌then◌else◌, inl, inr, none, refl, some, str_eq, ℕ,
  ◌∙◌, ◌∷◌, ◌≡◌,
}

-- What a key reads after an optional insertion, if it read `old` before.
abbrev pub read_put : String → Option String → String → Option Json → Option Json
read_put k none j old = old
read_put k (some s) j old = if str_eq k j then some (string s) else old

get-put :
    (k j : String) (o : Option String) (fs : Fields)
    → get j (put k o fs) ≡ read_put k o j (get j fs)
unfolding put
get-put k j none fs = refl
get-put k j (some s) fs = rw get-insert

-- No registry subcategory is ever put into an event: such events keep matching the rules of the
-- parent category.
pub resolve_category-ne-subcategory :
    (json : Json) (channel : String) (event_id : ℕ) (c : String)
    → resolve_category json channel event_id ≡ some c
    → is_registry_subcategory c ≡ false
unfolding resolve_category
resolve_category-ne-subcategory json channel event_id c h =
    dropped
      (or_else (get_category channel event_id >>= λ d. some (refine_category json d))
        (category_exclusive_sentinel channel))
      h
  where
    dropped : (o : Option String) → drop_subcategory o ≡ some c → is_registry_subcategory c ≡ false
    dropped none e = absurd (cc)
    dropped (some d) e = elim (Bool-cases (is_registry_subcategory d)) [
      | inl sub ↦ absurd (cc (rw sub at e))
      | inr fine ↦ let same : d ≡ c = cc (rw fine at e) in rw (← same) fine
    ]

-- An event that is an object reads, under each key, the injected field of that name if there is
-- one, and otherwise what it read before: the product always; the given service, or else that of its
-- channel or of its provider's channel; the category that its channel and id resolve to; and for a
-- category that wants them the flattened data.
pub get_key-with_injected_logsource :
    (fs : Fields) (product : String) (service : Option String) (k : String)
    → (let json = object fs in
        let channel = json_channel json in
        let category = resolve_category json channel (json_event_id json) in
        get_key k (with_injected_logsource json product service)
        ≡ read_put "Data" (if wants_data category then eventdata_to_string json else none) k (
            read_put "category" category k (
              read_put "service"
                (or_else service (service_of_channel channel (json_provider json)))
                k
                (if str_eq "product" k then some (string product) else get k fs))))
unfolding with_injected_logsource get_key resolve_logsource_fields
get_key-with_injected_logsource fs product service k =
    let found = resolve_logsource_fields (object fs) service in
    let base = insert "product" (string product) fs in
    let with_service = put "service" found.service base in
    let with_category = put "category" found.category with_service in
    get-put "Data" k found.ps_data with_category
    ∙ ap (read_put "Data" found.ps_data k) (
        get-put "category" k found.category with_service
        ∙ ap (read_put "category" found.category k) (
            get-put "service" k found.service base
            ∙ ap (read_put "service" found.service k) (get-insert "product" k (string product) fs)))

-- An event id that is an object, as XML with a `Qualifiers` attribute gives it, and that has no
-- inner `EventID`, reads as 0, whatever its text is.
pub json_event_id_qualified :
    (json : Json) (o : Fields)
    → get_path ("Event" ∷ "System" ∷ "EventID" ∷ []) json ≡ some (object o)
    → get "EventID" o ≡ none
    → json_event_id json ≡ 0
unfolding json_event_id
json_event_id_qualified json o h e = ap event_id_of h ∙ ap inner_event_id e

no_mapped_id : (json : Json) → resolve_category json "Windows PowerShell" 0 ≡ some "ps_other"
unfolding resolve_category
no_mapped_id json = refl

-- So a classic PowerShell event whose id has qualifiers is given the category of no mapped id.
pub classic_powershell_qualified :
    (json : Json) (o : Fields) (service : Option String)
    → get_path ("Event" ∷ "System" ∷ "EventID" ∷ []) json ≡ some (object o)
    → get "EventID" o ≡ none
    → json_channel json ≡ "Windows PowerShell"
    → (resolve_logsource_fields json service).category ≡ some "ps_other"
unfolding resolve_logsource_fields
classic_powershell_qualified json o service h e ch =
    rw (ch, json_event_id_qualified json o h e) (no_mapped_id json)
