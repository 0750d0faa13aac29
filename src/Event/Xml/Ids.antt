-- ===== src/Event/Xml/Ids.antt =====
-- What the detection view of an event's XML reads: the last child of a name, and the id of an event.
use sigmacatch.Event.Logsource.{
  as_u32, event_id_of, parsed_u32, unwrap_or, inner_event_id, json_event_id,
}
use sigmacatch.Event.Decimal.{parse_u64}
use sigmacatch.Json.{Json, string, Fields, end, get, get-insert, insert, get_key, get_path, ◌>>=◌}
use sigmacatch.Event.Xml.Views.{
  Nodes, element, text, comment, no_node, node, Tag, attributes_first, element_value, has_elements,
  insert_children, node_to_value, plain_attributes, Attributes, assemble, is_empty_list, text_of,
  trimmed, with_text, number_or_text, text_unless, event_node_to_value,
}
use sigmacatch.Event.Xml.Parsing.{or_found}
use sigmacatch.Prelude.{
  Bool-cases, Option, String, [], ap, eq_iff, false, if◌then◌else◌, inl, inr, none, refl, some,
  str_eq, sym, true, ℕ, ◌∙◌, ◌∷◌, ◌≡◌,
}

-- The last child element of a name.
abbrev pub last_child : String → Nodes → Option (Tag × Nodes)
last_child k no_node = none
last_child k (node (text s) ns) = last_child k ns
last_child k (node comment ns) = last_child k ns
last_child k (node (element t cs) ns) =
    or_found (last_child k ns) (if str_eq t.name k then some (t, cs) else none)

abbrev pub value_or : Option (Tag × Nodes) → Option Json → Option Json
value_or none o = o
value_or (some (t, cs)) o = some (node_to_value t cs)

last_or :
    (k : String) (t : Tag) (cs : Nodes) (later : Option (Tag × Nodes)) (o : Option Json)
    → value_or later (if str_eq t.name k then some (node_to_value t cs) else o)
      ≡ value_or (or_found later (if str_eq t.name k then some (t, cs) else none)) o
last_or k t cs (some e) o = refl
last_or k t cs none o = elim (Bool-cases (str_eq t.name k)) [
  | inl same ↦ rw same refl
  | inr other ↦ rw other refl
]

pub get-insert_children :
    (k : String) (cs : Nodes) (fs : Fields)
    → get k (insert_children cs fs) ≡ value_or (last_child k cs) (get k fs)
unfolding insert_children node_to_value
get-insert_children k no_node fs = refl
get-insert_children k (node (text s) ns) fs = get-insert_children k ns fs
get-insert_children k (node comment ns) fs = get-insert_children k ns fs
get-insert_children k (node (element t cs) ns) fs =
    let inner = insert_children cs (attributes_first string (plain_attributes t.attributes)) in
    get-insert_children k ns (insert t.name (element_value t cs inner) fs)
    ∙ ap (value_or (last_child k ns)) (get-insert t.name k (element_value t cs inner) fs)
    ∙ last_or k t cs (last_child k ns) (get k fs)

last_child-name :
    (k : String) (cs : Nodes) (t : Tag) (ns : Nodes)
    → last_child k cs ≡ some (t, ns)
    → (str_eq t.name k ≡ true) × (has_elements cs ≡ true)
last_child-name k no_node t ns h = absurd (cc)
last_child-name k (node (text s) cs) t ns h = last_child-name k cs t ns h
last_child-name k (node comment cs) t ns h = last_child-name k cs t ns h
last_child-name k (node (element u us) cs) t ns h =
    (found (last_child k cs) (λ e. (last_child-name k cs t ns e).0) h, refl)
  where
    found :
        (o : Option (Tag × Nodes))
        → (o ≡ some (t, ns) → str_eq t.name k ≡ true)
        → or_found o (if str_eq u.name k then some (u, us) else none) ≡ some (t, ns)
        → str_eq t.name k ≡ true
    found (some e) ih e' = ih e'
    found none ih e' = elim (Bool-cases (str_eq u.name k)) [
      | inl same ↦ let e'' : u ≡ t = cc (rw same at e') in rw (← e'') same
      | inr other ↦ absurd (cc (rw other at e'))
    ]

get-text_unless :
    (o : Option Json) (t : String) (fs : Fields)
    → get "EventID" (text_unless o t fs) ≡ get "EventID" fs
get-text_unless none t fs = get-insert "#text" "EventID" (string t) fs
get-text_unless (some v) t fs = refl

get-with_text :
    (o : Option String) (fs : Fields) → get "EventID" (with_text o fs) ≡ get "EventID" fs
get-with_text none fs = refl
get-with_text (some t) fs = get-text_unless (get "#text" fs) t fs

get-attributes_first : (as' : Attributes) → get "EventID" (attributes_first string as') ≡ none
unfolding get attributes_first
get-attributes_first [] = refl
get-attributes_first (a ∷ as') = refl

-- An element of children whose last `EventID` is `e`, under a name other than `EventData`.
event_id_under :
    (t : Tag) (cs : Nodes) (e : Tag × Nodes)
    → str_eq t.name "EventData" ≡ false
    → last_child "EventID" cs ≡ some e
    → get_key "EventID" (node_to_value t cs) ≡ some (node_to_value (e.0) (e.1))
unfolding node_to_value element_value assemble get_key
event_id_under t cs e other found =
    let attrs = plain_attributes t.attributes in
    rw (other, (last_child-name "EventID" cs (e.0) (e.1) found).1)
      (get-with_text (trimmed (text_of cs)) (insert_children cs (attributes_first string attrs))
        ∙ get-insert_children "EventID" cs (attributes_first string attrs)
        ∙ ap (λ o. value_or o (get "EventID" (attributes_first string attrs))) found)

-- The id that a number or a text gives.
id_of_parsed :
    (o : Option ℕ) (s : String)
    → parse_u64 s ≡ o
    → event_id_of (some (number_or_text o s)) ≡ parsed_u32 s
id_of_parsed none s e = refl
id_of_parsed (some n) s e = ap (λ o. as_u32 (unwrap_or o 0)) (sym e)

insert_children_leaf :
    (cs : Nodes) (fs : Fields) → has_elements cs ≡ false → insert_children cs fs ≡ fs
unfolding insert_children
insert_children_leaf no_node fs h = refl
insert_children_leaf (node (text s) cs) fs h = insert_children_leaf cs fs h
insert_children_leaf (node comment cs) fs h = insert_children_leaf cs fs h
insert_children_leaf (node (element t us) cs) fs h = absurd (cc)

-- The id of an element with a text and no child elements, by its attributes.
event_id_of-node_to_value :
    (t : Tag) (cs : Nodes) (s : String) (as' : Attributes)
    → str_eq t.name "EventData" ≡ false
    → has_elements cs ≡ false
    → trimmed (text_of cs) ≡ some s
    → plain_attributes t.attributes ≡ as'
    → event_id_of (some (node_to_value t cs)) ≡ (if is_empty_list as' then parsed_u32 s else 0)
unfolding node_to_value element_value assemble
event_id_of-node_to_value t cs s [] other leaf words attrs =
    rw (other, leaf, words, attrs) (id_of_parsed (parse_u64 s) s refl)
event_id_of-node_to_value t cs s (a ∷ as') other leaf words attrs =
    let fs = insert_children cs (attributes_first string (a ∷ as')) in
    let kept : get "EventID" fs ≡ none =
      ap (get "EventID") (insert_children_leaf cs (attributes_first string (a ∷ as')) leaf)
      ∙ get-attributes_first (a ∷ as') in
    rw (other, leaf, words, attrs)
      (ap inner_event_id (get-text_unless (get "#text" fs) s fs ∙ kept))

not_event_data : (n : String) → str_eq n "EventID" ≡ true → str_eq n "EventData" ≡ false
not_event_data n h = rw ((eq_iff n "EventID").0 h) refl

system_not_data : (n : String) → str_eq n "System" ≡ true → str_eq n "EventData" ≡ false
system_not_data n h = rw ((eq_iff n "System").0 h) refl

get_path-event :
    (cs : Nodes) (st et : Tag) (ss es : Nodes)
    → last_child "System" cs ≡ some (st, ss)
    → last_child "EventID" ss ≡ some (et, es)
    → get_path ("Event" ∷ "System" ∷ "EventID" ∷ []) (event_node_to_value cs)
      ≡ some (node_to_value et es)
unfolding get_path event_node_to_value get
get_path-event cs st et ss es system id =
    let found : get "System" (insert_children cs end) ≡ some (node_to_value st ss) =
      get-insert_children "System" cs end ∙ ap (λ o. value_or o none) system in
    let name = (last_child-name "System" cs st ss system).0 in
    ap (λ o. o >>= λ x. get_key "EventID" x >>= λ x'. some x') found
    ∙ ap (λ o. o >>= λ x'. some x')
        (event_id_under st ss (et, es) (system_not_data st.name name) id)

-- The id that the detection view of an event's XML reads: that of the text in the last `EventID` of
-- the last `System` element, as a 32-bit number, when it has no attributes; with an attribute, such
-- as `Qualifiers`, it is 0, whatever the text is.
pub json_event_id-event_node_to_value :
    (cs : Nodes) (st et : Tag) (ss es : Nodes) (s : String)
    → last_child "System" cs ≡ some (st, ss)
    → last_child "EventID" ss ≡ some (et, es)
    → has_elements es ≡ false
    → trimmed (text_of es) ≡ some s
    → json_event_id (event_node_to_value cs)
      ≡ (if is_empty_list (plain_attributes et.attributes) then parsed_u32 s else 0)
unfolding json_event_id
json_event_id-event_node_to_value cs st et ss es s system id leaf words =
    ap event_id_of (get_path-event cs st et ss es system id)
    ∙ event_id_of-node_to_value et es s (plain_attributes et.attributes)
        (not_event_data et.name (last_child-name "EventID" ss et es id).0) leaf words refl
