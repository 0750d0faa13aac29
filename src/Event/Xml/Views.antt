-- ===== src/Event/Xml/Views.antt =====
-- `event_node_to_value` and `event_node_to_value_raw` of sigmacatch/src/types.rs.
use Prim.Native.String
use sigmacatch.Json.{Json, number, string, object, Fields, end, field, get, insert}
use sigmacatch.Text.{is_blank, trim, without_char}
use sigmacatch.Event.Decimal.{parse_u64, u64_to_string}
use sigmacatch.Event.Xml.Scalars.{
  or_text, maybe_number, normalize_eventdata_value, normalize_string, number_or,
}
use sigmacatch.Prelude.{
  Bool, List, Option, String, [], false, if◌then◌else◌, keep, none, not, some, str_eq, true, ℕ,
  ◌++◌, ◌+◌, ◌∷◌,
}

abbrev pub Attributes : Type 0
Attributes = List (String × String)

-- What `tag_name`, `namespaces` and `attributes` give of an element.
pub record Tag : Type 0 where
  pub name : String
  pub namespace : Option String
  pub namespaces : List (Option String × String)
  pub attributes : Attributes

mutual
  pub data Node : Type 0 where
    element : Tag → Nodes → Node
    text : String → Node
    comment : Node

  pub data Nodes : Type 0 where
    no_node : Nodes
    node : Node → Nodes → Nodes

abbrev pub filled : String → Option String
filled t = if is_blank t then none else some t

-- `node.text()` of an element: its first child, if that is text.
abbrev pub text_of : Nodes → Option String
text_of (node (text s) ns) = some s
text_of no_node = none
text_of (node (element t cs) ns) = none
text_of (node comment ns) = none

-- The text, trimmed, if it is not empty.
unfoldable pub trimmed : Option String → Option String
unfolding trim is_blank
trimmed none = none
trimmed (some s) = filled (trim s)

abbrev pub has_elements : Nodes → Bool
has_elements no_node = false
has_elements (node (element t cs) ns) = true
has_elements (node (text s) ns) = has_elements ns
has_elements (node comment ns) = has_elements ns

abbrev pub plain_attributes : Attributes → Attributes
plain_attributes as' = keep (λ a. not (str_eq (a.0) "xmlns")) as'

abbrev pub attribute : String → Attributes → Option String
attribute k [] = none
attribute k ((n, v) ∷ as') = if str_eq n k then some v else attribute k as'

-- An attribute map: the values as they are, or normalized.
unfoldable pub attr_map : (String → Json) → Attributes → Fields → Fields
unfolding insert
attr_map value [] fs = fs
attr_map value ((n, v) ∷ as') fs = attr_map value as' (insert n (value v) fs)

-- `{"#attributes": …}`, if there is an attribute.
unfoldable pub attributes_first : (String → Json) → Attributes → Fields
unfolding attr_map
attributes_first value [] = end
attributes_first value (a ∷ as') = field "#attributes" (object (attr_map value (a ∷ as') end)) end

abbrev pub text_unless : Option Json → String → Fields → Fields
text_unless none t fs = insert "#text" (string t) fs
text_unless (some v) t fs = fs

-- `if let Some(t) = text && !map.contains_key("#text")`
abbrev pub with_text : Option String → Fields → Fields
with_text none fs = fs
with_text (some t) fs = text_unless (get "#text" fs) t fs

abbrev pub is_none {ℓ} : {A : Type ℓ} → Option A → Bool
is_none none = true
is_none (some a) = false

-- What both views make of an element that is not `EventData`, given `with_children`, the map of its
-- attributes and children: `scalar` is for a text alone, `nothing` for an empty element.
unfoldable pub assemble :
    (scalar : String → Json)
    → (nothing : Json) → (elements attrs : Bool) → Option String
    → (with_children : Fields) → Json
unfolding get insert
assemble scalar nothing false false none with_children = nothing
assemble scalar nothing false false (some t) with_children = scalar t
assemble scalar nothing false true none with_children = object with_children
assemble scalar nothing false true (some t) with_children =
    object (with_text (some t) with_children)
assemble scalar nothing true attrs words with_children = object (with_text words with_children)

abbrev pub is_empty_list {ℓ} : {A : Type ℓ} → List A → Bool
is_empty_list [] = true
is_empty_list (a ∷ as') = false

-- The name of an unnamed `<Data>` counts those before it.
abbrev pub data_key : (String → String) → String → ℕ → String × ℕ
data_key rename name i =
    if is_blank name then (String.◌++◌ "Data" (u64_to_string i), i + 1) else (rename name, i)

-- The loop of `handle_event_data` and of `handle_event_data_raw`: how a name gives the key, and a key
-- and a text the value.
unfoldable pub data_fields :
    (rename : String → String) → (value : String → String → Json) → Nodes → ℕ → Fields → Fields
unfolding insert is_blank u64_to_string trim
data_fields rename value no_node i fs = fs
data_fields rename value (node (text s) ns) i fs = data_fields rename value ns i fs
data_fields rename value (node comment ns) i fs = data_fields rename value ns i fs
data_fields rename value (node (element t cs) ns) i fs =
    let (key, i') = data_key rename (or_text "" (attribute "Name" t.attributes)) i in
    let s = trim (or_text "" (text_of cs)) in
    let is_data = str_eq t.name "Data" in
    data_fields rename value ns (if is_data then i' else i)
      (if is_data then insert key (value key s) fs else fs)

unfoldable pub handle_event_data : Nodes → Json
unfolding data_fields without_char
handle_event_data cs = object (data_fields (without_char 32) (λ k v. string v) cs 0 end)

abbrev pub number_or_text : Option ℕ → String → Json
number_or_text none t = string t
number_or_text (some n) t = number n

abbrev pub number_or_string : String → Json
number_or_string t = number_or_text (parse_u64 t) t

-- The two branches of `node_to_value`, given the map of the attributes and children.
unfoldable pub element_value : Tag → Nodes → Fields → Json
unfolding assemble handle_event_data parse_u64 trimmed
element_value t cs with_children =
    if str_eq t.name "EventData"
    then handle_event_data cs
    else assemble number_or_string (object end) (has_elements cs)
        (not (is_empty_list (plain_attributes t.attributes))) (trimmed (text_of cs)) with_children

-- The loops over the child elements, of `node_to_value` and of `event_node_to_value`.
unfoldable pub insert_children : Nodes → Fields → Fields
unfolding element_value attributes_first insert
insert_children no_node fs = fs
insert_children (node (text s) ns) fs = insert_children ns fs
insert_children (node comment ns) fs = insert_children ns fs
insert_children (node (element t cs) ns) fs =
    let inner = insert_children cs (attributes_first string (plain_attributes t.attributes)) in
    insert_children ns (insert t.name (element_value t cs inner) fs)

unfoldable pub node_to_value : Tag → Nodes → Json
unfolding element_value attributes_first insert_children
node_to_value t cs =
    element_value t cs
      (insert_children cs (attributes_first string (plain_attributes t.attributes)))

unfoldable pub event_node_to_value : Nodes → Json
unfolding insert_children
event_node_to_value cs =
    object (field "Event" (object (insert_children cs end)) (field "_source" (string "winevt") end))

-- `collect_element_attrs`, given the namespace of the parent element.
abbrev pub own_namespace : Option String → Option String → Attributes
own_namespace parent none = []
own_namespace none (some uri) = ("xmlns", uri) ∷ []
own_namespace (some p) (some uri) = if str_eq p uri then [] else ("xmlns", uri) ∷ []

unfoldable pub collect_element_attrs : (parent : Option String) → Tag → Attributes
collect_element_attrs parent t = own_namespace parent t.namespace ++ t.attributes

unfoldable pub handle_event_data_raw : (parent : Option String) → Tag → Nodes → Json
unfolding attributes_first collect_element_attrs data_fields normalize_eventdata_value
    normalize_string
handle_event_data_raw parent t cs = object (
    data_fields (λ n. n) normalize_eventdata_value cs 0
      (attributes_first normalize_string (collect_element_attrs parent t)))

abbrev pub scalar_raw : String → Json
unfolding maybe_number
scalar_raw s = number_or (maybe_number s) (string s)

unfoldable pub element_value_raw : (parent : Option String) → Tag → Nodes → Fields → Json
unfolding assemble handle_event_data_raw maybe_number trimmed collect_element_attrs
element_value_raw parent t cs with_children =
    if str_eq t.name "EventData"
    then handle_event_data_raw parent t cs
    else assemble scalar_raw Json.null (has_elements cs)
        (not (is_empty_list (collect_element_attrs parent t))) (trimmed (text_of cs)) with_children

unfoldable pub insert_children_raw : (parent : Option String) → Nodes → Fields → Fields
unfolding element_value_raw attributes_first insert collect_element_attrs normalize_string
insert_children_raw parent no_node fs = fs
insert_children_raw parent (node (text s) ns) fs = insert_children_raw parent ns fs
insert_children_raw parent (node comment ns) fs = insert_children_raw parent ns fs
insert_children_raw parent (node (element t cs) ns) fs =
    let attrs = attributes_first normalize_string (collect_element_attrs parent t) in
    let inner = insert_children_raw t.namespace cs attrs in
    insert_children_raw parent ns (insert t.name (element_value_raw parent t cs inner) fs)

-- The attributes of the event itself: its namespaces first.
abbrev pub namespace_key : Option String → String
namespace_key none = "xmlns"
namespace_key (some prefix) = String.◌++◌ "xmlns:" prefix

abbrev pub declared : List (Option String × String) → Attributes
declared [] = []
declared ((prefix, uri) ∷ ns) = (namespace_key prefix, uri) ∷ declared ns

unfoldable pub event_node_to_value_raw : Tag → Nodes → Json
unfolding attributes_first insert_children_raw
event_node_to_value_raw t cs = object (
    field "Event"
      (object (
        insert_children_raw t.namespace cs
          (attributes_first string (declared t.namespaces ++ t.attributes))))
      end)
