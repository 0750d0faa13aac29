-- ===== src/Rules.antt =====
-- sigmacatch/src/rule: the rule set, its loading from a tree of files, and its filters.
pub mod Thresholds
pub mod Filter
pub mod Loading
pub mod Lookup
pub mod Hex
pub mod Fingerprint
pub mod Examples
use sigmacatch.Prelude.{Bool, List, Option, String, ℕ}
use sigmacatch.Rules.Thresholds.{Level, Status}

abbrev pub Text : Type 0
Text = List ℕ

abbrev pub Uuid : Type 0
Uuid = ℕ

abbrev pub PathBuf : Type 0
PathBuf = String

-- The parts of `SigmaRule` that rule/mod.rs reads.
pub record SigmaRule : Type 0 where
  pub id : Option String
  pub product : Option String
  pub status : Option Status
  pub level : Option Level
  pub author : Option Text
  pub timeframe : Bool

-- `LoadStats`
pub record LoadStats : Type 0 where
  pub rules_loaded : ℕ
  pub rules_filtered_product : ℕ
  pub rules_filtered_status : ℕ
  pub rules_filtered_level : ℕ
  pub rules_filtered_author : ℕ
  pub rules_total_candidate : ℕ
  pub rules_parse_failed : ℕ
  pub rules_timeframe_ignored : ℕ

-- `SigmahqRules`
pub record SigmahqRules : Type 0 where
  pub rules : List SigmaRule
  pub rule_paths : List (Uuid × PathBuf)
  pub stats : LoadStats

-- What rule/mod.rs takes from the crate uuid and from Unicode's tables in the standard library.
pub record Platform : Type 0 where
  pub parse_uuid : String → Option Uuid
  pub print_uuid : Uuid → String
  pub to_lowercase : Text → Text
  pub is_whitespace : ℕ → Bool
