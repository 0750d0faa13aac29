-- ===== src/Regression/Examples.antt =====
-- The regression data at concrete inputs.
use sigmacatch.Json.{null}
use sigmacatch.Regression.State.{
  normal, log, SigmahqRegression, Uuid, begin_cycle, new_from_path, note_generation_failure,
  take_blocked,
}
use sigmacatch.Regression.TestsPath.{Text, expected_line, lines, updated}
use sigmacatch.Regression.TestsPath.Laws.{
  HasNoReturn, IsPlain, kept_lines, lines-updated, updated_again,
}
use sigmacatch.Regression.Failures.{failed_cycles_lem, failed_cycles_of, Blocked, Counted}
use sigmacatch.Regression.Generate.Store.{done, refused}
use sigmacatch.Regression.Generate.{
  Alert, Calls, Platform, RegressionData, generate, resolve_provider, rule_dir,
}
use sigmacatch.Regression.Generate.Laws.{AgreeOutside, generate-AgreeOutside}
use sigmacatch.Regression.Generate.Success.{Written, generate-Written}
use sigmacatch.Regression.Adding.{Disk, Texts}
use sigmacatch.Regression.Adding.Once.{
  cycle, alerted, AreDistinct, AreNew, Call, run, run-AreDistinct,
}
use sigmacatch.Prelude.{
  List, String, [], arith, false, find_entry, none, refl, some, true, ◌++◌, ◌<◌, ◌==◌, ◌∷◌, ◌≡◌,
}

abbrev start : SigmahqRegression
start = record (new_from_path (normal "sigma" ∷ normal "regression_data" ∷ [])) { format = log }

fresh : find_entry 7 start.failed_cycles ≡ none
unfolding new_from_path
fresh = refl

-- Three cycles, in the first of which the rule fails twice.
failed_cycles_example :
    (3 < start.max_failed_cycles → Counted 7 3 start (failed_cycles_of (1 ∷ 0 ∷ 0 ∷ []) 7 start))
    × (3 ≡ start.max_failed_cycles → Blocked 7 start (failed_cycles_of (1 ∷ 0 ∷ 0 ∷ []) 7 start))
failed_cycles_example = failed_cycles_lem (1 ∷ 0 ∷ 0 ∷ []) 7 start fresh (omega arith)

blocked_test : (take_blocked (failed_cycles_of (1 ∷ 0 ∷ 0 ∷ []) 7 start)).0 ≡ 7 ∷ []
unfolding take_blocked note_generation_failure begin_cycle new_from_path
blocked_test = refl

abbrev platform : Platform
platform = record {
  pretty = λ j. [];
  compact = λ j. [];
  canonical_yaml = λ i. i.provider;
  utf8 = λ s. 97 ∷ [];
  max_blob_size = 4;
}

abbrev texts : Texts
texts = record {
  print_uuid = λ id. "id";
  with_extension = λ p. p;
  display = λ p. [];
  is_whitespace = λ c. c == 32;
}

abbrev alert : Alert
alert = record {
  rule_id = 7;
  rule_title = [];
  description = none;
  rule_path = none;
  provider = 9 ∷ [];
  event_raw = 1 ∷ 2 ∷ [];
  event_json_raw = null;
  event_json_raw_all = none;
}

abbrev fine : Calls
fine = record {
  created = true;
  json_write = done;
  data_write = done;
  info_write = done;
  exported = none;
  removes = λ p. true;
  survives = λ p. false;
}

abbrev broken : Calls
broken = record fine { data_write = refused }

abbrev disk : Disk
disk = record { files = λ q. none; rule_texts = λ p. none }

-- A failure, then a success, then another alert of the same rule.
abbrev calls : List Call
calls = alerted broken alert ∷ cycle ∷ alerted fine alert ∷ alerted fine alert ∷ []

run_example :
    AreDistinct platform texts (run platform texts calls start disk)
    × AreNew platform texts start (run platform texts calls start disk)
run_example = run-AreDistinct platform texts calls start disk

run_test : run platform texts calls start disk ≡ 7 ∷ []
unfolding run new_from_path
run_test = refl

abbrev no_text : Uuid → String
no_text id = "id"

abbrev entry : RegressionData
entry = record {
  rule_id = 7;
  rule_title = [];
  alerts = alert ∷ [];
  output_path = normal "out" ∷ [];
  rule_rel_path = some (normal "r" ∷ []);
  author = none;
  description = none;
  format = log;
  add_json_output = false;
}

known : resolve_provider platform no_text log alert ≡ some (9 ∷ [])
unfolding resolve_provider
known = refl

succeeds : (generate platform no_text fine entry disk.files).0 ≡ true
unfolding generate
succeeds = refl

generate_example :
    Written platform no_text fine entry (9 ∷ []) (generate platform no_text fine entry disk.files)
generate_example =
    generate-Written platform no_text fine alert [] (9 ∷ []) entry disk.files refl known succeeds

outside_example :
    AgreeOutside
      (rule_dir no_text entry)
      disk.files
      (generate platform no_text broken entry disk.files).1
outside_example = generate-AgreeOutside platform no_text broken entry disk.files

abbrev key : Text
key = 107 ∷ 58 ∷ []

-- `a`, `k: x` and a blank line become `a` and `k: y`.
abbrev before : Text
before = 97 ∷ 10 ∷ 107 ∷ 58 ∷ 32 ∷ 120 ∷ 10 ∷ 10 ∷ []

abbrev behind : Text
behind = 97 ∷ 10 ∷ 107 ∷ 58 ∷ 32 ∷ 121 ∷ 10 ∷ []

rewritten : updated key texts.is_whitespace (121 ∷ []) before ≡ some behind
unfolding updated
rewritten = refl

path-IsPlain : IsPlain (expected_line key texts.is_whitespace (121 ∷ []))
path-IsPlain = (
  (λ e. omega arith, λ e. omega arith),
  (
    (λ e. omega arith, λ e. omega arith),
    ((λ e. omega arith, λ e. omega arith), ((λ e. omega arith, λ e. omega arith), tt)),
  ),
)

before-HasNoReturn : HasNoReturn before
before-HasNoReturn = (
  λ e. omega arith,
  (
    λ e. omega arith,
    (
      λ e. omega arith,
      (
        λ e. omega arith,
        (λ e. omega arith, (λ e. omega arith, (λ e. omega arith, (λ e. omega arith, tt)))),
      ),
    ),
  ),
)

lines_example :
    lines behind
    ≡ kept_lines key texts.is_whitespace before
      ++ expected_line key texts.is_whitespace (121 ∷ []) ∷ []
lines_example =
    lines-updated key texts.is_whitespace (121 ∷ []) before behind path-IsPlain before-HasNoReturn
      rewritten

updated_again_example : updated key texts.is_whitespace (121 ∷ []) behind ≡ none
updated_again_example =
    updated_again key texts.is_whitespace (121 ∷ []) before behind path-IsPlain before-HasNoReturn
      refl rewritten
