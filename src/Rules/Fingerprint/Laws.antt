-- ===== src/Rules/Fingerprint/Laws.antt =====
-- What the fingerprint of a rule set does not depend on.
use mathlib.Core.List.{Perm}
use mathlib.Core.List.Perm
use sigmacatch.Json.{Json, Items, Fields, array, object, nil, cons, end, field}
use sigmacatch.Rules.Fingerprint.{
  sort_json_keys, sort_items, sort_fields, Encoding, Serialized, canonical_json_bytes, digest_lines,
  fingerprint, insert_field, rule_digest, without_annotation, attribute_bytes,
}
use sigmacatch.Rules.Hex.{to_hex}
use sigmacatch.Prelude.{
  List, String, [], ap, ap₂, arith, bytes_leb_antisym, bytes_leb_total, bytes_leb_trans,
  insert_bytes, insert_bytes_comm, refl, ◌++◌, ◌∙◌, ◌≡◌, ◌≢◌,
}

-- The order in which the rules were read does not matter.
pub fingerprint-Perm :
    (encoding : Encoding) (rules rules' : List Serialized)
    → Perm rules rules'
    → fingerprint encoding rules ≡ fingerprint encoding rules'
unfolding fingerprint
fingerprint-Perm encoding rules rules' p =
    ap
      (λ ds.
        to_hex (encoding.sha1 (encoding.utf8 "sigmacatch-ruleset-v1" ++ digest_lines encoding ds)))
      (Perm.foldr-eq (hlevel) insert_bytes insert_bytes_comm (Perm.map (rule_digest encoding) p) [])

module _ (encoding : Encoding) where
  open encoding use {utf8}

  -- The same JSON value but for the order of the entries of its objects, whose keys are distinct.
  mutual
    pub data SameJson : Json → Json → Type 0 where
      same : (v : Json) → SameJson v v
      same_array : {vs ws : Items} → SameItems vs ws → SameJson (array vs) (array ws)
      same_object : {fs gs : Fields} → SameFields fs gs → SameJson (object fs) (object gs)

    pub data SameItems : Items → Items → Type 0 where
      same_nil : SameItems nil nil
      same_cons :
          {v w : Json} {vs ws : Items}
          → SameJson v w
          → SameItems vs ws
          → SameItems (cons v vs) (cons w ws)

    pub data SameFields : Fields → Fields → Type 0 where
      same_end : SameFields end end
      same_field :
          {v w : Json} {fs gs : Fields} (k : String)
          → SameJson v w
          → SameFields fs gs
          → SameFields (field k v fs) (field k w gs)
      swapped :
          (k j : String) (v w : Json) (fs : Fields)
          → utf8 k ≢ utf8 j
          → SameFields (field k v (field j w fs)) (field j w (field k v fs))
      and_then : {fs gs hs : Fields} → SameFields fs gs → SameFields gs hs → SameFields fs hs

  insert_field_comm :
      (k j : String) (v w : Json) (fs : Fields)
      → utf8 k ≢ utf8 j
      → insert_field encoding k v (insert_field encoding j w fs)
        ≡ insert_field encoding j w (insert_field encoding k v fs)
  insert_field_comm k j v w end n =
      ground (arith, bytes_leb_total (utf8 k) (utf8 j), bytes_leb_antisym (utf8 k) (utf8 j))
  insert_field_comm k j v w (field i u fs) n = ground (
    arith,
    bytes_leb_total (utf8 k) (utf8 j),
    bytes_leb_total (utf8 j) (utf8 k),
    bytes_leb_antisym (utf8 k) (utf8 j),
    bytes_leb_trans (utf8 k) (utf8 j) (utf8 i),
    bytes_leb_trans (utf8 j) (utf8 k) (utf8 i),
    insert_field_comm k j v w fs n,
  )

  -- Sorting the keys forgets the order of the entries, at every depth.
  mutual
    unfolding sort_json_keys sort_items sort_fields

    pub sort_json_keys-SameJson :
        {v w : Json} → SameJson v w → sort_json_keys encoding v ≡ sort_json_keys encoding w
    sort_json_keys-SameJson (same v) = refl
    sort_json_keys-SameJson (same_array s) = ap array (sort_items-SameItems s)
    sort_json_keys-SameJson (same_object s) = ap object (sort_fields-SameFields s)

    sort_items-SameItems :
        {vs ws : Items} → SameItems vs ws → sort_items encoding vs ≡ sort_items encoding ws
    sort_items-SameItems same_nil = refl
    sort_items-SameItems (same_cons s t) =
        ap₂ cons (sort_json_keys-SameJson s) (sort_items-SameItems t)

    sort_fields-SameFields :
        {fs gs : Fields} → SameFields fs gs → sort_fields encoding fs ≡ sort_fields encoding gs
    sort_fields-SameFields same_end = refl
    sort_fields-SameFields (same_field k s t) =
        ap₂ (insert_field encoding k) (sort_json_keys-SameJson s) (sort_fields-SameFields t)
    sort_fields-SameFields (swapped k j v w fs n) =
        insert_field_comm k j (sort_json_keys encoding v) (sort_json_keys encoding w)
          (sort_fields encoding fs) n
    sort_fields-SameFields (and_then s t) = sort_fields-SameFields s ∙ sort_fields-SameFields t

  -- The digest of a rule is the same whatever the order of the entries of its maps, and whatever
  -- annotation `regression_tests_path` it carries.
  pub rule_digest-SameJson :
      (r r' : Serialized)
      → SameJson r.sanitized r'.sanitized
      → SameFields
          (without_annotation encoding r.custom_attributes)
          (without_annotation encoding r'.custom_attributes)
      → rule_digest encoding r ≡ rule_digest encoding r'
  unfolding rule_digest canonical_json_bytes
  rule_digest-SameJson r r' s t =
      ap₂ (λ v fs. to_hex (encoding.sha1 (encoding.to_vec v ++ attribute_bytes encoding fs)))
        (sort_json_keys-SameJson s) (sort_fields-SameFields t)
