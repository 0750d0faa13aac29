-- ===== src/Check/Events.antt =====
-- `parse_auditd_lines` and `parse_json_lines` of regressiondata-check.rs: the events of a stored log.
use sigmacatch.Json.{Json, string, number, object, end, insert}
use sigmacatch.Auditd.Values.{Message, pairs_to_json}
use sigmacatch.Auditd.RawFields.{split_on}
use sigmacatch.Event.Payload.{
  Event, inject_logsource_fields, inject_logsource_fields_for, new_event,
}
use sigmacatch.Prelude.{
  Bool, Bool-cases, List, Option, String, [], ap, arith, false, if◌then◌else◌, inl, inr, length,
  none, refl, some, suc, true, ℕ, ◌++◌, ◌+◌, ◌==◌, ◌∙◌, ◌∷◌, ◌≡◌,
}

-- A byte before the chunks that follow it.
abbrev pub into_chunk : ℕ → List (List ℕ) → List (List ℕ)
into_chunk b [] = (b ∷ []) ∷ []
into_chunk b (c ∷ cs) = (b ∷ c) ∷ cs

-- The slices up to each newline, with it, and what is left at the end.
unfoldable pub chunks : List ℕ → List (List ℕ)
chunks [] = []
chunks (b ∷ bs) = let rest = chunks bs in if b == 10 then (b ∷ []) ∷ rest else into_chunk b rest

abbrev pub concat_chunks : List (List ℕ) → List ℕ
concat_chunks [] = []
concat_chunks (c ∷ cs) = c ++ concat_chunks cs

into_chunk-concat :
    (b : ℕ) (cs : List (List ℕ)) → concat_chunks (into_chunk b cs) ≡ b ∷ concat_chunks cs
into_chunk-concat b [] = refl
into_chunk-concat b (c ∷ cs) = refl

pub concat_chunks-chunks : (bs : List ℕ) → concat_chunks (chunks bs) ≡ bs
unfolding chunks
concat_chunks-chunks [] = refl
concat_chunks-chunks (b ∷ bs) = elim (Bool-cases (b == 10)) [
  | inl t ↦ rw t (ap (λ x. b ∷ x) (concat_chunks-chunks bs))
  | inr f ↦ rw f (into_chunk-concat b (chunks bs) ∙ ap (λ x. b ∷ x) (concat_chunks-chunks bs))
]

-- What is taken from linux_audit_parser, from UTF-8 and from serde_json.
pub record Parsers : Type 0 where
  pub parse : List ℕ → Option Message
  pub lossy : List ℕ → String
  pub from_slice : List ℕ → Option Json

module _ (parsers : Parsers) where
  open parsers use {parse, lossy, from_slice}

  unfoldable pub audit_event : List ℕ → Message → Event
  unfolding pairs_to_json insert new_event inject_logsource_fields_for
  audit_event line m =
      let flat = pairs_to_json lossy m.body end in
      let stamp =
        insert "sequence" (number m.id.sequence) (insert "timestamp" (number m.id.timestamp) end) in
      let raw =
        insert "fields" (object flat)
          (insert "type" (string m.ty) (insert "stamp" (object stamp) end)) in
      let json = insert "service" (string "auditd") (
        insert "product" (string "linux")
          (insert "provider" (string "auditd") (insert "type" (string m.ty) flat))) in
      inject_logsource_fields_for "linux" (some "auditd")
        (new_event (object raw) (object json) line)

  -- An event before the others, or one more line that was dropped.
  abbrev pub or_dropped : List ℕ → Option Message → List Event × ℕ → List Event × ℕ
  unfolding audit_event
  or_dropped line none (es, dropped) = (es, dropped + 1)
  or_dropped line (some m) (es, dropped) = (audit_event line m ∷ es, dropped)

  unfoldable pub audit_events : List (List ℕ) → List Event × ℕ
  unfolding audit_event
  audit_events [] = ([], 0)
  audit_events (line ∷ lines) = or_dropped line (parse line) (audit_events lines)

  -- `parse_auditd_lines`: no chunk is empty.
  unfoldable pub parse_auditd_lines : List ℕ → List Event × ℕ
  unfolding audit_events chunks
  parse_auditd_lines raw = audit_events (chunks raw)

  abbrev pub json_event : List ℕ → Option Json → List Event → List Event
  unfolding new_event inject_logsource_fields
  json_event line none es = es
  json_event line (some v) es = inject_logsource_fields (new_event v v line) ∷ es

  abbrev pub is_blank_line : List ℕ → Bool
  is_blank_line [] = true
  is_blank_line (b ∷ bs) = false

  unfoldable pub json_events : List (List ℕ) → List Event
  unfolding new_event inject_logsource_fields
  json_events [] = []
  json_events (line ∷ lines) =
      let rest = json_events lines in
      if is_blank_line line then rest else json_event line (from_slice line) rest

  -- `parse_json_lines`
  unfoldable pub parse_json_lines : List ℕ → List Event
  unfolding json_events split_on
  parse_json_lines raw = json_events (split_on 10 raw)

  -- Every line of a log is an event or is counted as dropped.
  pub parse_auditd_lines-count :
      (raw : List ℕ)
      → length (parse_auditd_lines raw).0 + (parse_auditd_lines raw).1 ≡ length (chunks raw)
  unfolding parse_auditd_lines audit_events
  parse_auditd_lines-count raw = counted (chunks raw)
    where
      one :
          (line : List ℕ) (o : Option Message) (r : List Event × ℕ) (n : ℕ)
          → length (r.0) + r.1 ≡ n
          → length ((or_dropped line o r).0) + (or_dropped line o r).1 ≡ suc n
      one line none r n h = omega arith
      one line (some m) r n h = omega arith

      counted : (ls : List (List ℕ)) → length (audit_events ls).0 + (audit_events ls).1 ≡ length ls
      counted [] = refl
      counted (l ∷ ls) = one l (parse l) (audit_events ls) (length ls) (counted ls)
