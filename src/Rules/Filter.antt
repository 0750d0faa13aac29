-- ===== src/Rules/Filter.antt =====
-- `SigmahqRules::filter` of rule/mod.rs.
pub mod Laws
pub mod Passing
use sigmacatch.Auditd.RawFields.{split_on}
use sigmacatch.Rules.Thresholds.{Level, Status, accepts_level, accepts_status}
use sigmacatch.Rules.{PathBuf, Platform, SigmaRule, SigmahqRules, Text, Uuid}
use sigmacatch.Prelude.{
  Bool, List, Option, String, [], any, false, find_entry, if◌then◌else◌, insert_entry, length, none,
  not, some, str_eq, true, ℕ, ◌&&◌, ◌++◌, ◌+◌, ◌==◌, ◌∷◌,
}

-- `SigmaFilterConfig`, but for the size of a rule, which `filter` does not read
pub record SigmaFilterConfig : Type 0 where
  pub product : String
  pub min_status : Option Status
  pub min_level : Option Level
  pub author : Option Text

-- The counters and results of the loop.
pub record Filtering : Type 0 where
  pub filtered_product : ℕ
  pub filtered_status : ℕ
  pub filtered_level : ℕ
  pub filtered_author : ℕ
  pub rules : List SigmaRule
  pub kept_ids : List Uuid

abbrev pub texts_equal : Text → Text → Bool
texts_equal [] [] = true
texts_equal (a ∷ s) (b ∷ t) = (a == b) && texts_equal s t
texts_equal _ _ = false

module _ (platform : Platform) where
  open platform use {parse_uuid, to_lowercase, is_whitespace}

  abbrev pub trim_start : Text → Text
  trim_start [] = []
  trim_start (c ∷ cs) = let rest = trim_start cs in if is_whitespace c then rest else c ∷ cs

  abbrev pub or_blank : ℕ → Text → Text
  or_blank c [] = if is_whitespace c then [] else c ∷ []
  or_blank c (d ∷ ds) = c ∷ d ∷ ds

  abbrev pub trim_end : Text → Text
  trim_end [] = []
  trim_end (c ∷ cs) = or_blank c (trim_end cs)

  -- `str::trim`
  unfoldable pub trim : Text → Text
  trim t = trim_end (trim_start t)

  unfoldable pub product_ok : SigmaFilterConfig → SigmaRule → Bool
  product_ok filters rule = elim rule.product [ none ↦ false | some p ↦ str_eq p filters.product ]

  abbrev pub status_between : Option Status → Option Status → Bool
  status_between (some threshold) (some s) = accepts_status threshold s
  status_between none _ = true
  status_between (some threshold) none = true

  unfoldable pub status_ok : SigmaFilterConfig → SigmaRule → Bool
  status_ok filters rule = status_between filters.min_status rule.status

  abbrev pub level_between : Option Level → Option Level → Bool
  level_between (some threshold) (some l) = accepts_level threshold l
  level_between none _ = true
  level_between (some threshold) none = true

  unfoldable pub level_ok : SigmaFilterConfig → SigmaRule → Bool
  level_ok filters rule = level_between filters.min_level rule.level

  abbrev pub author_between : Option Text → Option Text → Bool
  author_between (some filter_author) (some rule_author) =
      let filter_lower = to_lowercase (trim filter_author) in
      any (λ a. texts_equal (trim a) filter_lower) (split_on b',' (to_lowercase rule_author))
  author_between (some _) none = false
  author_between none _ = true

  unfoldable pub author_ok : SigmaFilterConfig → SigmaRule → Bool
  unfolding trim split_on
  author_ok filters rule = author_between filters.author rule.author

  abbrev with_id : Option Uuid → List Uuid → List Uuid
  with_id none ids = ids
  with_id (some uuid) ids = ids ++ uuid ∷ []

  abbrev pub uuid_of : SigmaRule → Option Uuid
  uuid_of rule = elim rule.id [ none ↦ none | some id ↦ parse_uuid id ]

  -- A round of the loop.
  unfoldable pub filter_rule : SigmaFilterConfig → SigmaRule → Filtering → Filtering
  filter_rule filters rule s =
      if not (product_ok filters rule)
      then record s { filtered_product = s.filtered_product + 1 }
      else (if not (status_ok filters rule)
          then record s { filtered_status = s.filtered_status + 1 }
          else (if not (level_ok filters rule)
              then record s { filtered_level = s.filtered_level + 1 }
              else (if not (author_ok filters rule)
                  then record s { filtered_author = s.filtered_author + 1 }
                  else record s {
                    rules = s.rules ++ rule ∷ [];
                    kept_ids = with_id (uuid_of rule) s.kept_ids;
                  })))

  unfoldable pub filter_rules : SigmaFilterConfig → List SigmaRule → Filtering → Filtering
  unfolding filter_rule
  filter_rules filters [] s = s
  filter_rules filters (rule ∷ rules) s = filter_rules filters rules (filter_rule filters rule s)

  abbrev path_into : Option PathBuf → Uuid → List (Uuid × PathBuf) → List (Uuid × PathBuf)
  path_into none id paths = paths
  path_into (some path) id paths = insert_entry id path paths

  -- The paths of the kept ids.
  unfoldable pub kept_paths :
      List Uuid → List (Uuid × PathBuf) → List (Uuid × PathBuf) → List (Uuid × PathBuf)
  kept_paths [] old paths = paths
  kept_paths (id ∷ ids) old paths = kept_paths ids old (path_into (find_entry id old) id paths)

  abbrev pub nothing_filtered : Filtering
  nothing_filtered = record {
    filtered_product = 0;
    filtered_status = 0;
    filtered_level = 0;
    filtered_author = 0;
    rules = [];
    kept_ids = [];
  }

  -- `SigmahqRules::filter`
  unfoldable pub filter : SigmahqRules → SigmaFilterConfig → SigmahqRules
  unfolding filter_rules kept_paths
  filter set filters =
      let s = filter_rules filters set.rules nothing_filtered in
      record {
        rules = s.rules;
        rule_paths = kept_paths s.kept_ids set.rule_paths [];
        stats = record {
          rules_loaded = length s.rules;
          rules_filtered_product = s.filtered_product;
          rules_filtered_status = s.filtered_status;
          rules_filtered_level = s.filtered_level;
          rules_filtered_author = s.filtered_author;
          rules_total_candidate = length set.rules;
          rules_parse_failed = set.stats.rules_parse_failed;
          rules_timeframe_ignored = set.stats.rules_timeframe_ignored;
        };
      }
