-- ===== src/Rules/Examples.antt =====
-- Rule sets at concrete inputs.
use mathlib.Core.List.Perm
use sigmacatch.Json.{string, number, object, end, field, Fields}
use sigmacatch.Rules.Thresholds.{
  test, stable, experimental, high, Status, accepts_status, accepts_status_order, status_rank,
}
use sigmacatch.Rules.Filter.{SigmaFilterConfig, filter, author_ok, level_ok, product_ok, status_ok}
use sigmacatch.Rules.Filter.Passing.{Passes, passes}
use sigmacatch.Rules.Filter.Laws.{
  drops_author, drops_level, drops_product, drops_status, filter_lem,
}
use sigmacatch.Rules.Loading.{
  folder, no_nodes, node, is_file, is_dir, failed, parsed, error, warning, loaded, Folder, Loading,
  Node, Parsed, finish, load_dirs, new_from_path, nothing_loaded,
}
use sigmacatch.Rules.Loading.Counts.{
  errors_share, load_dirs_counts, rules_share, timeframes_share, totals,
}
use sigmacatch.Rules.Loading.Ids.{AreDistinct, ids, new_from_path-AreDistinct}
use sigmacatch.Rules.Lookup.{get_rule, remove_id, remove_id_lem, is_found}
use sigmacatch.Rules.Hex.{from_hex, from_hex-to_hex, to_hex}
use sigmacatch.Rules.Fingerprint.{Encoding, Serialized, fingerprint, rule_digest}
use sigmacatch.Rules.Fingerprint.Laws.{
  same_object, swapped, same_end, fingerprint-Perm, rule_digest-SameJson,
}
use sigmacatch.Rules.{LoadStats, PathBuf, Platform, SigmaRule, SigmahqRules, Uuid}
use sigmacatch.Prelude.{
  List, Option, String, [], arith, false, find_entry, if◌then◌else◌, keep, length, none, refl, some,
  str_eq, true, ◌+◌, ◌==◌, ◌↔◌, ◌∷◌, ◌≡◌,
}

order_example :
    (accepts_status experimental experimental ≡ true)
    × (accepts_status experimental test ≡ true
        → accepts_status test experimental ≡ true
        → status_rank experimental ≡ status_rank test)
    × (accepts_status experimental test ≡ true
        → accepts_status test stable ≡ true
        → accepts_status experimental stable ≡ true)
order_example = accepts_status_order experimental test stable

-- Ids are their own texts but for `one` and `two`.
abbrev number_of : String → Option Uuid
number_of s = if str_eq s "one" then some 1 else (if str_eq s "two" then some 2 else none)

abbrev text_of : Uuid → String
text_of n = if n == 1 then "one" else "two"

abbrev platform : Platform
platform = record {
  parse_uuid = number_of;
  print_uuid = text_of;
  to_lowercase = λ t. t;
  is_whitespace = λ c. c == 32;
}

abbrev rule : String → Status → SigmaRule
rule id status = record {
  id = some id;
  product = some "linux";
  status = some status;
  level = some high;
  author = some (97 ∷ 44 ∷ 32 ∷ 98 ∷ []);
  timeframe = false;
}

abbrev no_stats : LoadStats
no_stats = record {
  rules_loaded = 0;
  rules_filtered_product = 0;
  rules_filtered_status = 0;
  rules_filtered_level = 0;
  rules_filtered_author = 0;
  rules_total_candidate = 0;
  rules_parse_failed = 0;
  rules_timeframe_ignored = 0;
}

abbrev set : SigmahqRules
set = record {
  rules = rule "one" stable ∷ rule "two" experimental ∷ [];
  rule_paths = (1, "a.yml") ∷ (2, "b.yml") ∷ [];
  stats = no_stats;
}

-- Rules of the author `b` that are at least in test.
abbrev wanted_rules : SigmaFilterConfig
wanted_rules = record {
  product = "linux";
  min_status = some test;
  min_level = none;
  author = some (98 ∷ []);
}

filter_example :
    (let kept = filter platform set wanted_rules in
      (kept.rules ≡ keep (passes platform wanted_rules) set.rules)
      × ((r : SigmaRule) → (passes platform wanted_rules r ≡ true) ↔ Passes platform wanted_rules r)
      × (kept.stats.rules_filtered_product
          ≡ length (keep (drops_product platform wanted_rules) set.rules))
      × (kept.stats.rules_filtered_status
          ≡ length (keep (drops_status platform wanted_rules) set.rules))
      × (kept.stats.rules_filtered_level
          ≡ length (keep (drops_level platform wanted_rules) set.rules))
      × (kept.stats.rules_filtered_author
          ≡ length (keep (drops_author platform wanted_rules) set.rules))
      × (kept.stats.rules_loaded
            + (kept.stats.rules_filtered_product
                + (kept.stats.rules_filtered_status
                    + (kept.stats.rules_filtered_level + kept.stats.rules_filtered_author)))
          ≡ kept.stats.rules_total_candidate))
filter_example = filter_lem platform wanted_rules set

filter_test : (filter platform set wanted_rules).rules ≡ rule "one" stable ∷ []
unfolding filter product_ok status_ok accepts_status level_ok author_ok
filter_test = refl

remove_id_example :
    (let (set', removed) = remove_id platform set 1 in
      (get_rule platform set' 1 ≡ none)
      × (find_entry 1 set'.rule_paths ≡ none)
      × (removed ≡ is_found platform (get_rule platform set 1))
      × ((other : Uuid)
          → str_eq (text_of 1) (text_of other) ≡ false
          → get_rule platform set' other ≡ get_rule platform set other))
remove_id_example = remove_id_lem platform set 1

hex_example : from_hex (to_hex (171 ∷ 5 ∷ [])) ≡ some (171 ∷ 5 ∷ [])
hex_example = from_hex-to_hex (171 ∷ 5 ∷ []) (omega arith, (omega arith, tt))

-- A text is a rule with that id, but for the one that does not parse.
abbrev parse_text : String → Parsed
parse_text s = if str_eq s "bad" then failed else parsed (error ∷ warning ∷ []) (rule s stable ∷ [])

abbrev yaml : String → Node
yaml s =
    is_file
      (record { path = s; extension = some "yml"; file_name = some "rule.yml"; content = some s })

-- A directory with two rules of one id, one of them in a directory below, and a broken file.
abbrev tree : List Folder
tree =
    folder (
      node (yaml "one")
        (node (is_dir (folder (node (yaml "one") (node (yaml "bad") no_nodes)))) no_nodes))
    ∷ []

abbrev named : PathBuf → String
named p = p

abbrev result : Loading
result = record {
  rules = rule "one" stable ∷ [];
  rule_paths = (1, "one") ∷ [];
  seen_ids = "one" ∷ [];
  skipped_dupes = 1;
  skipped_parse_errors = 3;
  skipped_timeframes = 0;
}

loads :
    load_dirs platform parse_text named tree (nothing_loaded platform parse_text named)
    ≡ some result
unfolding load_dirs
loads = refl

load_dirs_example :
    (length result.rules + result.skipped_dupes
      ≡ totals platform parse_text named (rules_share platform parse_text named) tree)
    × (result.skipped_parse_errors
        ≡ totals platform parse_text named (errors_share platform parse_text named) tree)
    × (result.skipped_timeframes
        ≡ totals platform parse_text named (timeframes_share platform parse_text named) tree)
load_dirs_example = load_dirs_counts platform parse_text named tree result loads

loads_set :
    new_from_path platform parse_text named tree ≡ loaded (finish platform parse_text named result)
unfolding new_from_path
loads_set = refl

new_from_path_example : AreDistinct (ids (finish platform parse_text named result).rules)
new_from_path_example =
    new_from_path-AreDistinct platform parse_text named tree
      (finish platform parse_text named result) loads_set

-- The key `a` is the empty slice, the other keys are `b`.
abbrev encoding : Encoding
encoding = record {
  utf8 = λ s. if str_eq s "a" then [] else 98 ∷ [];
  to_vec = λ j. 1 ∷ [];
  sha1 = λ bs. bs;
}

abbrev serialized : Fields → Fields → Serialized
serialized fs attributes = record { sanitized = object fs; custom_attributes = attributes }

abbrev ab : Fields
ab = field "a" (number 1) (field "b" (number 2) end)

abbrev ba : Fields
ba = field "b" (number 2) (field "a" (number 1) end)

abbrev annotated : Fields
annotated = field "regression_tests_path" (string "x/info.yml") end

rule_digest_example :
    rule_digest encoding (serialized ab annotated) ≡ rule_digest encoding (serialized ba end)
rule_digest_example =
    rule_digest-SameJson encoding (serialized ab annotated) (serialized ba end)
      (same_object (swapped "a" "b" (number 1) (number 2) end (λ e. absurd (cc)))) same_end

fingerprint_example :
    fingerprint encoding (serialized ab end ∷ serialized end end ∷ [])
    ≡ fingerprint encoding (serialized end end ∷ serialized ab end ∷ [])
fingerprint_example =
    fingerprint-Perm encoding (serialized ab end ∷ serialized end end ∷ [])
      (serialized end end ∷ serialized ab end ∷ [])
      (Perm.swap (serialized end end) (serialized ab end) [])
