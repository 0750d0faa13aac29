-- ===== src/Event/EventData.antt =====
-- `eventdata_to_string` of sigmacatch/src/types.rs: the text that classic PowerShell events get
-- under `Data`.
use Prim.Native.String.{◌++◌}
use sigmacatch.Json.{
  Json, Items, Fields, array, boolean, negative, cons, end, field, get_path, nil, number, object,
  string, ◌>>=◌,
}
use sigmacatch.Event.Decimal.{u64_to_string}
use sigmacatch.Prelude.{List, Option, String, [], false, none, refl, some, true, ◌∷◌, ◌≡◌}

-- `parts.join(sep)`
abbrev pub join : String → List String → String
join sep [] = ""
join sep (s ∷ []) = s
join sep (s ∷ t ∷ ss) = s ++ sep ++ join sep (t ∷ ss)

abbrev pub item_texts : Items → List String
item_texts nil = []
item_texts (cons (string s) vs) = s ∷ item_texts vs
item_texts (cons Json.null vs) = item_texts vs
item_texts (cons _ vs) = item_texts vs

unfoldable pub value_text : Json → String
unfolding u64_to_string
value_text (number n) = u64_to_string n
value_text (negative n) = "-" ++ u64_to_string n
value_text (boolean true) = "true"
value_text (boolean false) = "false"
value_text (string s) = s
value_text (array vs) = join "," (item_texts vs)
value_text (object fs) = "object"
value_text Json.null = "null"

abbrev pub field_texts : Fields → List String
unfolding value_text
field_texts end = []
field_texts (field k v fs) = value_text v ∷ field_texts fs

abbrev pub joined_lines : List String → Option String
joined_lines [] = none
joined_lines (s ∷ ss) = some (join "\n" (s ∷ ss))

abbrev pub text_of_object : Json → Option String
text_of_object (object fs) = joined_lines (field_texts fs)
text_of_object Json.null = none
text_of_object _ = none

unfoldable pub eventdata_to_string : Json → Option String
unfolding get_path value_text
eventdata_to_string json = get_path ("Event" ∷ "EventData" ∷ []) json >>= text_of_object

abbrev under_event : Fields → Json
under_event fs = object (field "Event" (object (field "EventData" (object fs) end)) end)

eventdata_to_string_tests :
    (eventdata_to_string (under_event end) ≡ none)
    × (eventdata_to_string (
          under_event (
            field "Data"
              (array (cons (string "a") (cons (number 1) (cons (string "b") nil))))
              (field "n" (number 40) end)))
        ≡ some "a,b\n40")
unfolding eventdata_to_string
eventdata_to_string_tests = (refl, refl)
