-- ===== src/Check/Examples.antt =====
-- The check tool at concrete inputs.
use Prim.Native.Char.{code}
use sigmacatch.Json.{Json, string}
use sigmacatch.Event.Payload.{Event}
use sigmacatch.Lines.{Line}
use sigmacatch.Regression.TestsPath.Laws.{HasNoReturn}
use sigmacatch.Detection.Engine.{DetectionEngine, EngineStats, MatchHeader, alert_of}
use sigmacatch.Detection.Engine.Queue.{alerts_for}
use sigmacatch.Check.Indent.{
  fix_indentation, needs_reindent, trim_newlines, validate_yaml_indentation, yaml_lines,
}
use sigmacatch.Check.Indent.Repair.{fix_indentation-validate, all_known}
use sigmacatch.Check.Newlines.{multiple_newlines, fix_newlines, newline_fault}
use sigmacatch.Check.Newlines.Repair.{fix_newlines_lem}
use sigmacatch.Check.Paths.{
  declared, Disk, Entry, TestInfo, Tree, resolve_upstream_relative, validate_declared_tests,
  validate_regression_paths,
}
use sigmacatch.Check.Paths.Laws.{
  Declares, HasEntry, IsSound, NothingWrong, validate_declared_tests-IsSound,
  validate_regression_paths-NothingWrong,
}
use sigmacatch.Check.Replay.{
  passed, skipped, ignored, failed, json, no_path, no_raw_data, Outcome, RegressionEntry, Setting,
  Stored, Tally, check_entries, check_entry, is_of, pass_rate, tally,
}
use sigmacatch.Check.Replay.Laws.{alone, check_entries-alone, idle, sum, tally-sum}
use sigmacatch.Check.Replay.Passing.{IsValid, check_entry-passed}
use sigmacatch.Prelude.{
  All, List, Option, String, [], any, arith, false, if◌then◌else◌, map, none, not, refl, some,
  str_eq, true, ℕ, ◌+◌, ◌==◌, ◌↔◌, ◌∷◌, ◌≡◌,
}

abbrev codes : String → List ℕ
codes String.[] = []
codes (String.◌∷◌ c s) = code c ∷ codes s

abbrev original : Line
original = codes "# a\nrule:\n- id: x\n  title: y\n\n"

abbrev canonical : Line
canonical = codes "rule:\n    - id: x\n      title: y"

abbrev mended : Line
mended = codes "# a\nrule:\n    - id: x\n      title: y\n\n"

-- Both texts parse to one document.
abbrev canonical_of : Line → Option Line
canonical_of l = some canonical

written : fix_indentation canonical_of original ≡ some mended
unfolding fix_indentation
written = refl

known : all_known (yaml_lines canonical) (yaml_lines original) ≡ true
unfolding yaml_lines
known = refl

plain : HasNoReturn original
plain = omega arith

indent_example :
    (validate_yaml_indentation canonical_of mended ≡ none)
    × (needs_reindent mended canonical ≡ false)
indent_example =
    fix_indentation-validate canonical_of original canonical mended refl plain known written refl
      refl

newlines_example :
    (let fixed = fix_newlines (97 ∷ 10 ∷ 10 ∷ []) in
      (newline_fault fixed ≡ none)
      × (trim_newlines fixed ≡ trim_newlines (97 ∷ 10 ∷ 10 ∷ []))
      × (fix_newlines fixed ≡ fixed))
newlines_example = fix_newlines_lem 97 (10 ∷ 10 ∷ [])

newlines_test :
    (newline_fault (97 ∷ 10 ∷ 10 ∷ []) ≡ some multiple_newlines)
    × (fix_newlines (97 ∷ 10 ∷ 10 ∷ []) ≡ 97 ∷ 10 ∷ [])
unfolding newline_fault fix_newlines
newlines_test = (refl, refl)

abbrev tree : Tree
tree = record {
  get = λ id. if id == 1 then some (declared "a") else none;
  attributes = declared "a" ∷ [];
  join_root = λ s. s;
  exists = λ s. true;
}

abbrev entries : List Entry
entries = record { info_path = "a"; rule_id = 1 } ∷ []

paths_example : NothingWrong (validate_regression_paths tree entries) ↔ (
    All (λ e. Declares tree e (tree.get e.rule_id)) entries
    × All (HasEntry tree entries) tree.attributes)
paths_example = validate_regression_paths-NothingWrong tree entries

abbrev disk : Disk
disk = record {
  root = "/s";
  ancestors = "/s" ∷ "/" ∷ [];
  is_absolute = λ p. false;
  join = λ d p. if str_eq d "/" then p else "no";
  exists = λ p. not (str_eq p "no");
  file_len = λ p. some 3;
}

abbrev test : TestInfo
test = record {
  test_type = "json";
  match_count = 1;
  pipelines = some ("p.yml" ∷ []);
  filters = none;
  path = "d";
}

tests_example : (validate_declared_tests disk 0 (test ∷ []) ≡ []) ↔ All (IsSound disk) (test ∷ [])
tests_example = validate_declared_tests-IsSound disk 0 (test ∷ [])

walk_test : resolve_upstream_relative disk "p.yml" ≡ some "p.yml"
unfolding resolve_upstream_relative
walk_test = refl

abbrev setting : Setting
setting = record {
  ignore_invalid = false;
  disk = record disk { join = λ d p. p };
  parsers = record { parse = λ bs. none; lossy = λ bs. ""; from_slice = λ bs. some (string "x") };
  canonical_of = λ bs. none;
  stream = λ bs. true ∷ [];
  parse_evtx = λ bs. none;
}

abbrev evaluate : ℕ → Json → List MatchHeader
evaluate e j = record { id = some "one"; title = "t"; level = none } ∷ []

abbrev engine : DetectionEngine ℕ
engine = record {
  engine = 7;
  events = [];
  alerts = [];
  stats = record { events_processed = 0; alerts_generated = 0 };
  rule_paths = (1, "a.yml") ∷ [];
  rule_id_map = ("one", 1) ∷ [];
  hir_cache = false;
}

abbrev stats : EngineStats
stats = record { events_processed = 0; alerts_generated = 0 }

abbrev stored : ℕ → Stored
stored id = record {
  entry = some (record { rule_name = "r"; rule_id = id; logtype = json });
  info = some (record { auxiliary = none ∷ []; tests = test ∷ [] });
  layout = no_path;
  raw_data = some (49 ∷ 10 ∷ []);
  json_records = true;
}

passing : (check_entry setting (λ e. map (evaluate e)) (stored 1) (idle engine stats)).0 ≡ passed
unfolding check_entry alert_of
passing = refl

passed_example :
    (e : RegressionEntry) × (vs : List Event) × ((stored 1).entry ≡ some e)
    × IsValid setting (stored 1) e vs
    × (any (is_of setting e.rule_id) (alerts_for evaluate engine vs) ≡ true)
passed_example =
    check_entry-passed setting evaluate (λ e. map (evaluate e)) (λ e js. refl) (stored 1) engine
      stats passing

alone_example :
    check_entries setting (λ e. map (evaluate e)) (stored 1 ∷ stored 2 ∷ []) (idle engine stats)
    ≡ map (alone setting (λ e. map (evaluate e)) engine) (stored 1 ∷ stored 2 ∷ [])
alone_example =
    check_entries-alone setting (λ e. map (evaluate e)) (stored 1 ∷ stored 2 ∷ []) engine stats

abbrev zero_tally : Tally
zero_tally = record { total = 0; passes = 0; skips = 0; ignores = 0; failures = [] }

abbrev outcomes : List Outcome
outcomes = passed ∷ skipped ∷ ignored ∷ failed "r" no_raw_data ∷ []

tally_example :
    ((tally outcomes zero_tally).total + 0 ≡ 0 + sum (tally outcomes zero_tally))
    × ((tally outcomes zero_tally).total + (tally outcomes zero_tally).ignores ≡ 0 + 0 + 4)
tally_example = tally-sum outcomes zero_tally (refl, (refl, (refl, (refl, tt))))

-- Of three entries that are counted one passes and one is skipped: the rate is 1 of 4.
rate_test : pass_rate (tally outcomes zero_tally) ≡ some (1, 4)
unfolding pass_rate tally
rate_test = refl
