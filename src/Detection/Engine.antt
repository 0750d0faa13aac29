-- ===== src/Detection/Engine.antt =====
-- `DetectionEngine` of sigmacatch/src/detection/mod.rs: the queue of events, the evaluation of a
-- batch, the alerts and the counters. The engine of rsigma-eval is an argument.
pub mod Alerts
pub mod Queue
pub mod Examples
use sigmacatch.Json.{Json}
use sigmacatch.Detection.Cache.{Bytes, Compiler, save_blob}
use sigmacatch.Event.Payload.{Event}
use sigmacatch.Prelude.{
  Bool, List, Option, String, [], false, find_entry, if◌then◌else◌, length, map, none, some, str_eq,
  true, ℕ, ◌++◌, ◌+◌, ◌∷◌,
}

-- `Alert` of types.rs; a rule is its uuid, as a number.
pub record Alert : Type 0 where
  pub rule_id : ℕ
  pub rule_title : String
  pub description : Option String
  pub rule_path : Option String
  pub severity : String
  pub event_json_raw : Json
  pub event_json : Json
  pub event_raw : List ℕ
  pub event_json_raw_all : Option (List Json)

-- The header of a result of rsigma-eval; the level is as `{:?}` shows it.
pub record MatchHeader : Type 0 where
  pub id : Option String
  pub title : String
  pub level : Option String

pub record EngineStats : Type 0 where
  pub events_processed : ℕ
  pub alerts_generated : ℕ

pub record DetectionEngine (Engine : Type 0) : Type 0 where
  pub engine : Engine
  pub events : List Event
  pub alerts : List Alert
  pub stats : EngineStats
  pub rule_paths : List (ℕ × String)
  pub rule_id_map : List (String × ℕ)
  pub hir_cache : Bool

abbrev pub insert_id : String → ℕ → List (String × ℕ) → List (String × ℕ)
insert_id s u [] = (s, u) ∷ []
insert_id s u ((t, v) ∷ m) =
    let rest = insert_id s u m in if str_eq t s then (t, u) ∷ m else (t, v) ∷ rest

abbrev pub find_id : String → List (String × ℕ) → Option ℕ
find_id s [] = none
find_id s ((t, v) ∷ m) = if str_eq t s then some v else find_id s m

-- `build_rule_id_map`, over `Uuid::to_string`
unfoldable pub build_rule_id_map :
    (uuid_text : ℕ → String) → List (ℕ × String) → List (String × ℕ) → List (String × ℕ)
build_rule_id_map uuid_text [] ids = ids
build_rule_id_map uuid_text ((u, path) ∷ paths) ids =
    build_rule_id_map uuid_text paths (insert_id (uuid_text u) u ids)

abbrev pub with_default {ℓ} : {A : Type ℓ} → A → Option A → A
with_default d none = d
with_default d (some a) = a

abbrev pub id_of : List (String × ℕ) → Option String → Option ℕ
id_of ids none = none
id_of ids (some s) = find_id s ids

abbrev pub is_empty {ℓ} : {A : Type ℓ} → List A → Bool
is_empty [] = true
is_empty (a ∷ as') = false

module _ {Engine : Type 0} where
  -- The nil uuid is 0.
  unfoldable pub alert_of : DetectionEngine Engine → Event → MatchHeader → Alert
  alert_of s event header =
      let rule_id = with_default 0 (id_of s.rule_id_map header.id) in
      record {
        rule_id = rule_id;
        rule_title = header.title;
        description = none;
        rule_path = find_entry rule_id s.rule_paths;
        severity = with_default "unknown" header.level;
        event_json_raw = event.event_json_raw;
        event_json = event.event_json;
        event_raw = event.event_raw;
        event_json_raw_all = event.event_json_raw_all;
      }

  -- The loops over the events and their matches: `events.iter().zip(all_matches.iter())`.
  unfoldable pub zip_alerts :
      DetectionEngine Engine → List Event → List (List MatchHeader) → List Alert
  zip_alerts s [] ms = []
  zip_alerts s (e ∷ es) [] = []
  zip_alerts s (e ∷ es) (m ∷ ms) = map (alert_of s e) m ++ zip_alerts s es ms

  unfoldable pub put_events : List Event → DetectionEngine Engine → DetectionEngine Engine
  put_events es s = record s { events = s.events ++ es }

  unfoldable pub put_event : Event → DetectionEngine Engine → DetectionEngine Engine
  put_event e s = record s { events = s.events ++ e ∷ [] }

  unfoldable pub get_events : DetectionEngine Engine → DetectionEngine Engine × List Event
  get_events s = (record s { events = [] }, s.events)

  unfoldable pub process_events :
      (evaluate_batch : Engine → List Json → List (List MatchHeader))
      → DetectionEngine Engine
      → DetectionEngine Engine
  unfolding zip_alerts
  process_events evaluate_batch s = if is_empty s.events then s else record s {
    events = [];
    stats = record (s.stats) { events_processed = s.stats.events_processed + length s.events };
    alerts =
        s.alerts
        ++ zip_alerts s s.events (evaluate_batch s.engine (map (λ e. e.event_json) s.events));
  }

  unfoldable pub get_alerts : DetectionEngine Engine → DetectionEngine Engine × List Alert
  get_alerts s = (
    record s {
      alerts = [];
      stats = record (s.stats) { alerts_generated = s.stats.alerts_generated + length s.alerts };
    },
    s.alerts,
  )

-- What a change of the rules takes from rsigma-eval, beside `Compiler`: rules that fail are skipped,
-- and their indices are returned.
pub record Loader (Engine Rule : Type 0) : Type 0 where
  pub compiler : Compiler Engine Rule
  pub add_rules_lenient : Engine → List Rule → Engine × List ℕ

module _ {Engine Rule : Type 0} (loader : Loader Engine Rule) (uuid_text : ℕ → String) where
  open loader use {compiler, add_rules_lenient}

  abbrev pub new_engine : Bool → Engine
  new_engine retain =
      if retain then compiler.set_retain_hir compiler.create_engine else compiler.create_engine

  -- `reload_rules`: the engine and the cache file.
  unfoldable pub reload_rules :
      (file : Option Bytes)
      → (written : Bool) → (key : Bytes) → List Rule
      → List (ℕ × String)
      → DetectionEngine Engine
      → DetectionEngine Engine × Option Bytes
  unfolding build_rule_id_map
  reload_rules file written key rules paths s =
      let (engine, errors) = add_rules_lenient (new_engine s.hir_cache) rules in
      (
        record s {
          engine = engine;
          rule_paths = paths;
          rule_id_map = build_rule_id_map uuid_text paths [];
        },
        if s.hir_cache
            then save_blob compiler file written key (compiler.save_hir engine)
            else file,
      )

  -- `new_lenient`: the engine, and the indices of the rules that failed.
  unfoldable pub new_lenient : List Rule → List (ℕ × String) → DetectionEngine Engine × List ℕ
  unfolding build_rule_id_map
  new_lenient rules paths =
      let (engine, failed) = add_rules_lenient compiler.create_engine rules in
      (
        record {
          engine = engine;
          events = [];
          alerts = [];
          stats = record { events_processed = 0; alerts_generated = 0 };
          rule_paths = paths;
          rule_id_map = build_rule_id_map uuid_text paths [];
          hir_cache = false;
        },
        failed,
      )
