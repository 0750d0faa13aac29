-- ===== src/Auditd/Values.antt =====
-- `Record`, `parse_line` and `value_to_json` of auditd.rs. The parser is the crate
-- linux_audit_parser; its messages are given by what the code reads of them.
use sigmacatch.Json.{Json, string, array, object, Items, nil, cons, Fields, end, field, insert}
use sigmacatch.Prelude.{Bool, List, Option, String, none, some, ℕ, ◌&&◌, ◌==◌}

pub record EventId : Type 0 where
  pub timestamp : ℕ
  pub sequence : ℕ

abbrev pub same_id : EventId → EventId → Bool
same_id a b = (a.timestamp == b.timestamp) && (a.sequence == b.sequence)

-- `linux_audit_parser::Value`; a number carries its `to_string`, a literal its text.
mutual
  pub data AuditValue : Type 0 where
    empty : AuditValue
    str owned : List ℕ → AuditValue
    numeric literal : String → AuditValue
    list stringified_list : Values → AuditValue
    map_of : Pairs → AuditValue
    segments skipped : AuditValue

  pub data Values : Type 0 where
    no_values : Values
    more_values : AuditValue → Values → Values

  pub data Pairs : Type 0 where
    no_pairs : Pairs
    more_pairs : String → AuditValue → Pairs → Pairs

-- A parsed message of the crate.
pub record Message : Type 0 where
  pub id : EventId
  pub node : Option (List ℕ)
  pub ty : String
  pub body : Pairs

pub record Record : Type 0 where
  pub id : EventId
  pub node : Option String
  pub ty : String
  pub fields : Fields

-- `if let Some(json) = … { map.insert(key, json) }`
abbrev pub insert_some : String → Option Json → Fields → Fields
insert_some k none fs = fs
insert_some k (some v) fs = insert k v fs

abbrev array_of : Items → Option Json
array_of nil = none
array_of (cons v vs) = some (array (cons v vs))

abbrev object_of : Fields → Option Json
object_of end = none
object_of (field k v fs) = some (object (field k v fs))

abbrev cons_some : Option Json → Items → Items
cons_some none vs = vs
cons_some (some v) vs = cons v vs

-- `String::from_utf8_lossy` is `lossy`.
module _ (lossy : List ℕ → String) where
  unfoldable mutual
    pub value_to_json : AuditValue → Option Json
    value_to_json empty = some (string "")
    value_to_json (str bytes) = some (string (lossy bytes))
    value_to_json (owned bytes) = some (string (lossy bytes))
    value_to_json (numeric n) = some (string n)
    value_to_json (list items) = array_of (items_to_json items)
    value_to_json (stringified_list items) = array_of (items_to_json items)
    value_to_json (map_of pairs) = object_of (pairs_to_json pairs end)
    value_to_json (literal s) = some (string s)
    value_to_json segments = none
    value_to_json skipped = none

    pub items_to_json : Values → Items
    items_to_json no_values = nil
    items_to_json (more_values v vs) = cons_some (value_to_json v) (items_to_json vs)

    pub pairs_to_json : Pairs → Fields → Fields
    pairs_to_json no_pairs fs = fs
    pairs_to_json (more_pairs k v ps) fs = pairs_to_json ps (insert_some k (value_to_json v) fs)

  abbrev lossy_node : Option (List ℕ) → Option String
  lossy_node none = none
  lossy_node (some n) = some (lossy n)

  -- `parse_line`, over the parser of the crate.
  unfoldable pub parse_line : (parse : List ℕ → Option Message) → List ℕ → Option Record
  unfolding value_to_json
  parse_line parse line = elim (parse line) [
    | none ↦ none
    | some m ↦ some (record {
      id = m.id;
      node = lossy_node m.node;
      ty = m.ty;
      fields = pairs_to_json m.body end;
    })
  ]
