-- ===== src/Auditd/Handler.antt =====
-- `record_to_event` and `AuditdHandler` of auditd.rs.
use sigmacatch.Json.{Json, string, number, object, Fields, end, insert}
use sigmacatch.Event.Payload.{Event, new_injected}
use sigmacatch.Tail.{LineHandler, Outcome, newline}
use sigmacatch.Auditd.Values.{EventId, Message, Record, parse_line, same_id}
use sigmacatch.Auditd.RawFields.{lines_pairs, split_on}
use sigmacatch.Prelude.{
  Bool, List, Option, String, [], false, if◌then◌else◌, leb, length, map, none, some, true, ℕ, ◌&&◌,
  ◌++◌, ◌+◌, ◌==◌, ◌||◌, ◌∷◌,
}

-- What auditd.rs takes from elsewhere: the parser of linux_audit_parser and the two conversions
-- between texts and bytes.
pub record Platform : Type 0 where
  pub parse : List ℕ → Option Message
  pub lossy : List ℕ → String
  pub utf8 : String → List ℕ

abbrev pub starts_with : List ℕ → List ℕ → Bool
starts_with [] bs = true
starts_with (p ∷ ps) [] = false
starts_with (p ∷ ps) (b ∷ bs) = (p == b) && starts_with ps bs

-- `b"type="`
abbrev pub type_key : List ℕ
type_key = 116 ∷ 121 ∷ 112 ∷ 101 ∷ 61 ∷ []

-- `line.windows(ty.len() + 6).any(|w| w.starts_with(b"type=") && &w[5..5 + ty.len()] == ty)`: a
-- window holds one byte more than it is compared with.
unfoldable pub has_type : List ℕ → List ℕ → Bool
has_type ty [] = false
has_type ty (b ∷ bs) =
    (leb (length ty + 6) (length (b ∷ bs)) && starts_with (type_key ++ ty) (b ∷ bs))
    || has_type ty bs

unfoldable pub find_line : List ℕ → List (List ℕ) → List ℕ → List ℕ
unfolding has_type
find_line ty [] otherwise = otherwise
find_line ty (l ∷ ls) otherwise = if has_type ty l then l else find_line ty ls otherwise

module _ (platform : Platform) where
  open platform use {parse, lossy, utf8}

  insert_pairs : List (List ℕ × List ℕ) → Fields → Fields
  insert_pairs [] fs = fs
  insert_pairs ((k, v) ∷ ps) fs = insert_pairs ps (insert (lossy k) (string (lossy v)) fs)

  unfoldable pub extract_raw_fields : List ℕ → Fields
  unfolding lines_pairs split_on insert_pairs insert
  extract_raw_fields lines = insert_pairs (lines_pairs (split_on newline lines)) end

  abbrev pub node_into : Option String → Fields → Fields
  node_into none fs = fs
  node_into (some n) fs = insert "node" (string n) fs

  -- The structured view of one record: its own line is searched among the group's.
  unfoldable pub raw_json : List ℕ → Record → Json
  unfolding extract_raw_fields find_line split_on insert
  raw_json lines r =
      let record_line = find_line (utf8 r.ty) (split_on newline lines) lines in
      let stamp =
        insert "sequence" (number r.id.sequence) (insert "timestamp" (number r.id.timestamp) end) in
      object (
        insert "fields" (object (extract_raw_fields record_line))
          (node_into r.node (insert "type" (string r.ty) (insert "stamp" (object stamp) end))))

  abbrev insert_all : Fields → Fields → Fields
  insert_all Fields.end fs = fs
  insert_all (Fields.field k v more) fs = insert_all more (insert k v fs)

  -- `record_to_event`
  unfoldable pub record_to_event : List ℕ → Record → Event
  unfolding raw_json insert new_injected
  record_to_event lines r =
      let flat = insert_all r.fields (node_into r.node (insert "type" (string r.ty) end)) in
      new_injected (raw_json lines r) (object (insert "provider" (string "auditd") flat)) lines
        "linux" (some "auditd")

  -- The events of a group: one for each record, with the lines and the raw views of all.
  unfoldable pub group_events : List ℕ → List Record → List Event
  unfolding record_to_event
  group_events lines records =
      let all = map (raw_json lines) records in
      map (λ r. record (record_to_event lines r) { event_json_raw_all = some all }) records

pub record AuditdHandler : Type 0 where
  pub group_seq : Option EventId
  pub group_lines : List ℕ
  pub group_records : List Record

abbrev pub new_handler : AuditdHandler
new_handler = record { group_seq = none; group_lines = []; group_records = [] }

module _ (platform : Platform) where
  open platform use {parse, lossy}

  -- `flush_group`, and the events that it appends to `out`
  unfoldable pub flush_group : AuditdHandler → AuditdHandler × List Event
  unfolding group_events
  flush_group h = elim h.group_records [
    | [] ↦ (record h { group_seq = none }, [])
    | r ∷ rs ↦ (new_handler, group_events platform h.group_lines (r ∷ rs))
  ]

  abbrev pub in_group : Option EventId → EventId → Bool
  in_group none id = false
  in_group (some seq) id = same_id seq id

  abbrev pub push_record : List ℕ → Record → AuditdHandler → AuditdHandler
  push_record line r h = record h {
    group_lines = h.group_lines ++ line;
    group_records = h.group_records ++ r ∷ [];
  }

  -- The part of `on_line` behind the parser.
  unfoldable pub on_record : AuditdHandler → List ℕ → Record → List Event × AuditdHandler
  unfolding flush_group
  on_record h line r =
      let (flushed, out) = flush_group h in
      if in_group h.group_seq r.id
      then ([], push_record line r h)
      else (out, push_record line r (record flushed { group_seq = some r.id }))

  abbrev pub on_parsed : AuditdHandler → List ℕ → Option Record → List Event × AuditdHandler
  on_parsed h line none = ([], h)
  on_parsed h line (some r) = on_record h line r

  unfoldable pub on_line : AuditdHandler → List ℕ → Outcome (List Event) AuditdHandler
  unfolding on_record
  on_line h line = let (out, h') = on_parsed h line (parse_line lossy parse line) in (some out, h')

  unfoldable pub on_idle : AuditdHandler → Outcome (List Event) AuditdHandler
  unfolding flush_group
  on_idle h = let (h', out) = flush_group h in (some out, h')

  unfoldable pub on_rotate : AuditdHandler → AuditdHandler
  on_rotate h = new_handler

  -- The handler as the tail driver sees it.
  abbrev pub auditd : LineHandler Event
  auditd = record {
    State = AuditdHandler;
    on_line = on_line;
    on_idle = on_idle;
    on_rotate = on_rotate;
  }
