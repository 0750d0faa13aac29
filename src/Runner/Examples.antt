-- ===== src/Runner/Examples.antt =====
-- The runner at concrete inputs: events are the ids of the rules that they match.
use sigmacatch.Rules.{Platform, SigmaRule, SigmahqRules}
use sigmacatch.Runner.{
  shutdown, received, tick, Loop, Parts, Pipeline, Round, process_and_generate, rounds,
}
use sigmacatch.Runner.Cycle.{IsSettled, process_and_generate-IsSettled}
use sigmacatch.Runner.Rounds.{IsReplayed, ends_in_panic, left_of, replay, rounds-IsReplayed, steps}
use sigmacatch.Prelude.{
  List, String, [], false, has, if◌then◌else◌, none, refl, some, str_eq, true, ℕ, ◌++◌, ◌==◌, ◌∷◌,
  ◌≡◌,
}

abbrev platform : Platform
platform = record {
  parse_uuid = λ s. if str_eq s "one" then some 1 else some 2;
  print_uuid = λ n. if n == 1 then "one" else "two";
  to_lowercase = λ t. t;
  is_whitespace = λ c. false;
}

abbrev parts : Parts
parts = record {
  Event = ℕ;
  Engine = List ℕ;
  Regression = List ℕ;
  Alert = ℕ;
  File = ℕ;
  put_event = λ e n. e ++ n ∷ [];
  process_events = λ e. e;
  get_alerts = λ e. (e, []);
  reload_rules = λ e rules. e;
  rule_id = λ n. n;
  begin_cycle = λ r. r;
  add = λ r n. if has n r then (none, r) else (some (n ∷ []), n ∷ r);
  take_blocked = λ r. ([], r);
}

abbrev rule : String → SigmaRule
rule id = record {
  id = some id;
  product = none;
  status = none;
  level = none;
  author = none;
  timeframe = false;
}

abbrev set : SigmahqRules
set = record {
  rules = rule "one" ∷ rule "two" ∷ [];
  rule_paths = [];
  stats = record {
    rules_loaded = 2;
    rules_filtered_product = 0;
    rules_filtered_status = 0;
    rules_filtered_level = 0;
    rules_filtered_author = 0;
    rules_total_candidate = 2;
    rules_parse_failed = 0;
    rules_timeframe_ignored = 0;
  };
}

abbrev pipeline : Pipeline platform parts
pipeline = record { engine = 1 ∷ 1 ∷ []; rules = set; regression = [] }

cycle_example :
    (let (p', batches) = process_and_generate platform parts pipeline in
      let e = (parts.get_alerts (parts.process_events pipeline.engine)).1 in
      IsSettled platform parts e pipeline p' batches)
cycle_example = process_and_generate-IsSettled platform parts pipeline

-- Two alerts of one rule give one batch.
cycle_test : (process_and_generate platform parts pipeline).1 ≡ (1, 1 ∷ []) ∷ []
unfolding process_and_generate
cycle_test = refl

abbrev start : Loop platform parts
start = record {
  pipeline_slot = some pipeline;
  dropped_while_generating = 0;
  runs_completed = 0;
  branch_pushed = false;
  uploads = [];
  ended = false;
}

abbrev some_rounds : List (Round platform parts)
some_rounds =
    received (some 2)
    ∷ tick false true
    ∷ received (some 1)
    ∷ tick false true
    ∷ tick false true
    ∷ shutdown
    ∷ []

rounds_example :
    (let left = left_of (some 2) 0 in
      IsReplayed platform parts true
        (some 2)
        start
        (ends_in_panic platform parts left some_rounds)
        (replay platform parts (steps platform parts left some_rounds) pipeline)
        (rounds platform parts true (some 2) some_rounds start))
rounds_example =
    rounds-IsReplayed platform parts true (some 2) some_rounds pipeline start refl refl refl

-- The first event is in the batch of the first cycle, the second in the next one.
replay_test :
    (rounds platform parts true (some 2) some_rounds start).uploads
    ≡ ((1, 1 ∷ []) ∷ (2, 2 ∷ []) ∷ []) ∷ []
unfolding rounds
replay_test = refl

rounds_test : (rounds platform parts true (some 2) some_rounds start).runs_completed ≡ 2
unfolding rounds
rounds_test = refl
