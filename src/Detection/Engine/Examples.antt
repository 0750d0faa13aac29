-- ===== src/Detection/Engine/Examples.antt =====
-- The engine at concrete inputs: an engine is a number, and an event of text `n` matches the rule of
-- that text.
use sigmacatch.Json.{Json, string}
use sigmacatch.Event.Payload.{Event}
use sigmacatch.Detection.Engine.{
  DetectionEngine, Loader, MatchHeader, alert_of, process_events, reload_rules,
}
use sigmacatch.Detection.Engine.Queue.{
  put, put_one, process, take_alerts, Accounts, Op, offered, run, run-Accounts,
}
use sigmacatch.Detection.Engine.Alerts.{alert_of-reload_rules}
use sigmacatch.Prelude.{
  List, Option, String, [], ap, false, length, map, none, refl, some, suc, true, zero, ℕ, ◌∷◌, ◌≡◌,
}

abbrev evaluate : ℕ → Json → List MatchHeader
evaluate e (string s) = record { id = some s; title = "t"; level = none } ∷ []
evaluate e Json.null = []
evaluate e _ = []

abbrev event : String → Event
event s = record {
  event_json_raw = Json.null;
  event_json = string s;
  event_raw = [];
  event_json_raw_all = none;
}

abbrev fresh : DetectionEngine ℕ
fresh = record {
  engine = 7;
  events = [];
  alerts = [];
  stats = record { events_processed = 0; alerts_generated = 0 };
  rule_paths = (1, "a.yml") ∷ [];
  rule_id_map = ("one", 1) ∷ [];
  hir_cache = false;
}

abbrev ops : List Op
ops = put (event "one" ∷ event "two" ∷ []) ∷ process ∷ take_alerts ∷ put_one (event "one") ∷ []

queue_example :
    Accounts evaluate fresh
      (offered ops)
      (run (λ e. map (evaluate e)) ops fresh).0
      (run (λ e. map (evaluate e)) ops fresh).1
queue_example = run-Accounts evaluate (λ e. map (evaluate e)) (λ e js. refl) ops fresh

-- Two alerts are taken: the second names no loaded rule. One event waits.
run_test :
    (map {B = ℕ × Option String}
        (λ a. (a.rule_id, a.rule_path))
        (run (λ e. map (evaluate e)) ops fresh).1
      ≡ (1, some "a.yml") ∷ (0, none) ∷ [])
    × (length (run (λ e. map (evaluate e)) ops fresh).0.events ≡ 1)
unfolding run alert_of process_events
run_test = (refl, refl)

abbrev text : ℕ → String
text zero = ""
text (suc n) = String.◌∷◌ "a" (text n)

text_one : (u v : ℕ) → text u ≡ text v → u ≡ v
text_one zero zero h = refl
text_one zero (suc v) h = absurd (cc)
text_one (suc u) zero h = absurd (cc)
text_one (suc u) (suc v) h = ap suc (text_one u v (cc))

abbrev loader : Loader ℕ ℕ
loader = record {
  compiler = record {
    create_engine = 0;
    load_hir = λ e bs. none;
    set_retain_hir = λ e. e;
    add_rules = λ e rules. none;
    save_hir = λ e. none;
  };
  add_rules_lenient = λ e rules. (length rules, []);
}

alert_example :
    (let reloaded = (reload_rules loader text none true [] [] ((2, "b.yml") ∷ []) fresh).0 in
      let alert =
        alert_of
          (run (λ e. map (evaluate e)) ops reloaded).0
          (event "x")
          (record { id = some "aa"; title = "t"; level = none }) in
      (alert.rule_id ≡ 2)
      × (alert.rule_path ≡ some "b.yml")
      × (alert.event_json_raw ≡ Json.null)
      × (alert.event_json ≡ string "x")
      × (alert.event_raw ≡ [])
      × (alert.event_json_raw_all ≡ none))
alert_example =
    alert_of-reload_rules text text_one loader (λ e. map (evaluate e)) none true [] []
      ((2, "b.yml") ∷ []) fresh ops (event "x")
      (record { id = some "aa"; title = "t"; level = none }) 2 "b.yml" refl refl
