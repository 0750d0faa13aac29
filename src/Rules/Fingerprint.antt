-- ===== src/Rules/Fingerprint.antt =====
-- `SigmahqRules::fingerprint` of rule/mod.rs and its canonical JSON.
pub mod Laws
use mathlib.Core.List.{foldr}
use sigmacatch.Json.{
  Json, Items, Fields, null, boolean, number, negative, string, array, object, nil, cons, end,
  field,
}
use sigmacatch.Rules.Hex.{to_hex}
use sigmacatch.Prelude.{
  List, String, [], bytes_leb, if◌then◌else◌, insert_bytes, map, str_eq, ℕ, ◌++◌, ◌∷◌,
}

-- What the crates give: the bytes of a text, `serde_json::to_vec`, and the digest of the crate sha1.
pub record Encoding : Type 0 where
  pub utf8 : String → List ℕ
  pub to_vec : Json → List ℕ
  pub sha1 : List ℕ → List ℕ

-- A rule as serde serializes it: the rule without its custom attributes, and these.
pub record Serialized : Type 0 where
  pub sanitized : Json
  pub custom_attributes : Fields

module _ (encoding : Encoding) where
  open encoding use {utf8, to_vec, sha1}

  abbrev pub insert_field : String → Json → Fields → Fields
  insert_field k v end = field k v end
  insert_field k v (field j w fs) =
      let rest = insert_field k v fs in
      if bytes_leb (utf8 k) (utf8 j) then field k v (field j w fs) else field j w rest

  -- `sort_json_keys`; the values take no part in the sorting, so they are sorted on the way.
  unfoldable mutual
    pub sort_json_keys : Json → Json
    sort_json_keys null = null
    sort_json_keys (boolean b) = boolean b
    sort_json_keys (number n) = number n
    sort_json_keys (negative n) = negative n
    sort_json_keys (string s) = string s
    sort_json_keys (array vs) = array (sort_items vs)
    sort_json_keys (object fs) = object (sort_fields fs)

    pub sort_items : Items → Items
    sort_items nil = nil
    sort_items (cons v vs) = cons (sort_json_keys v) (sort_items vs)

    pub sort_fields : Fields → Fields
    sort_fields end = end
    sort_fields (field k v fs) = insert_field k (sort_json_keys v) (sort_fields fs)

  unfoldable pub canonical_json_bytes : Json → List ℕ
  unfolding sort_json_keys
  canonical_json_bytes value = to_vec (sort_json_keys value)

  -- `.filter(|(k, _)| k.as_str() != "regression_tests_path")`
  abbrev pub without_annotation : Fields → Fields
  without_annotation end = end
  without_annotation (field k v fs) =
      let rest = without_annotation fs in
      if str_eq k "regression_tests_path" then rest else field k v rest

  -- The updates of the hasher for attributes whose values are canonical.
  abbrev pub attribute_bytes : Fields → List ℕ
  attribute_bytes end = []
  attribute_bytes (field k v fs) = utf8 k ++ (0 ∷ to_vec v ++ attribute_bytes fs)

  unfoldable pub rule_digest : Serialized → List ℕ
  unfolding canonical_json_bytes sort_fields to_hex
  rule_digest rule = to_hex (
      sha1 (
        canonical_json_bytes rule.sanitized
        ++ attribute_bytes (sort_fields (without_annotation rule.custom_attributes))))

  abbrev pub digest_lines : List (List ℕ) → List ℕ
  digest_lines [] = []
  digest_lines (d ∷ ds) = d ++ (10 ∷ digest_lines ds)

  -- `SigmahqRules::fingerprint`
  unfoldable pub fingerprint : List Serialized → List ℕ
  unfolding rule_digest to_hex
  fingerprint rules =
      let digests = foldr insert_bytes [] (map rule_digest rules) in
      to_hex (sha1 (utf8 "sigmacatch-ruleset-v1" ++ digest_lines digests))
