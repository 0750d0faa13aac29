-- ===== src/Check/Replay.antt =====
-- The loop of `main` in regressiondata-check.rs: each entry is validated, its stored events are
-- replayed through the detection engine, and the outcomes are counted.
pub mod Laws
pub mod Passing
use sigmacatch.Json.{Json}
use sigmacatch.Event.Payload.{Event}
use sigmacatch.Detection.Engine.{
  Alert, DetectionEngine, MatchHeader, get_alerts, process_events, put_events,
}
use sigmacatch.Check.Indent.{Misfit, validate_yaml_indentation}
use sigmacatch.Check.Newlines.{Fault, or_stream, validate_json_auxiliary}
use sigmacatch.Check.Paths.{Disk, PathValidation, TestError, TestInfo, validate_declared_tests}
use sigmacatch.Check.Events.{Parsers, parse_auditd_lines, parse_json_lines}
use sigmacatch.Prelude.{
  Bool, List, Option, String, [], any, false, if◌then◌else◌, keep, length, ltb, none, not, some,
  str_eq, true, ℕ, ◌&&◌, ◌++◌, ◌+◌, ◌==◌, ◌||◌, ◌∷◌,
}

-- `LogType` of regression/logtype.rs
pub data LogType : Type 0 where
  evtx json raw log : LogType

abbrev pub as_str : LogType → String
as_str evtx = "evtx"
as_str json = "json"
as_str raw = "raw"
as_str log = "log"

-- `LogType::from_declared`
unfoldable pub from_declared : String → Option LogType
from_declared s =
    if str_eq s "evtx"
    then some evtx
    else (if str_eq s "json"
        then some json
        else (if str_eq s "raw" then some raw else (if str_eq s "log" then some log else none)))

-- The declared rules' auxiliary files, and the declared tests.
pub record Info : Type 0 where
  pub auxiliary : List (Option (Option (List ℕ)))
  pub tests : List TestInfo

-- An `info.yml` as it is validated: without a path, one that cannot be read, or its text.
pub data Layout : Type 0 where
  no_path unreadable : Layout
  text : List ℕ → Layout

pub record RegressionEntry : Type 0 where
  pub rule_name : String
  pub rule_id : ℕ
  pub logtype : LogType

-- What `get_entry`, `get_info`, `get_raw_data` and `get_json_records` give at an index.
pub record Stored : Type 0 where
  pub entry : Option RegressionEntry
  pub info : Option Info
  pub layout : Layout
  pub raw_data : Option (List ℕ)
  pub json_records : Bool

pub data CheckError : Type 0 where
  metadata_empty : CheckError
  bad_json : Fault → CheckError
  bad_layout : CheckError
  bad_info : CheckError
  bad_tests : List TestError → CheckError
  no_raw_data : CheckError
  evtx_error : CheckError
  no_events : CheckError
  not_matched : CheckError
  count_mismatch : ℕ → ℕ → CheckError

pub data Outcome : Type 0 where
  passed : Outcome
  skipped : Outcome
  ignored : Outcome
  no_entry : Outcome
  failed : String → CheckError → Outcome

-- Whether an entry goes on to the replay.
pub data Loaded : Type 0 where
  stop : Outcome → Loaded
  go : RegressionEntry → List Event → Loaded

-- What the check takes from elsewhere, and its option `--ignore`; `canonical_of` is the canonical
-- text of the `info.yml` of a text, if that parses.
pub record Setting : Type 0 where
  pub ignore_invalid : Bool
  pub disk : Disk
  pub parsers : Parsers
  pub canonical_of : List ℕ → Option (List ℕ)
  pub stream : List ℕ → List Bool
  pub parse_evtx : List ℕ → Option (List Event)

module _ (setting : Setting) where
  open setting use {ignore_invalid, disk, parsers, canonical_of, stream, parse_evtx}

  abbrev pub ignore_or : Outcome → Outcome
  ignore_or o = if ignore_invalid then ignored else o

  -- The first fault of the declared rules' files.
  abbrev pub first_fault : List (Option (Option (List ℕ))) → Option Fault
  first_fault [] = none
  first_fault (f ∷ fs) = or_stream (validate_json_auxiliary stream f) (first_fault fs)

  abbrev pub fault_error : Option Fault → Option CheckError
  fault_error none = none
  fault_error (some f) = some (bad_json f)

  abbrev pub json_error : Option Info → Option CheckError
  json_error none = none
  json_error (some i) = elim i.auxiliary [
    | [] ↦ some metadata_empty
    | f ∷ fs ↦ fault_error (first_fault (f ∷ fs))
  ]

  abbrev pub misfit_error : Option Misfit → Option CheckError
  misfit_error none = none
  misfit_error (some m) = some bad_layout

  abbrev pub layout_error : Layout → Option CheckError
  layout_error no_path = none
  layout_error unreadable = some bad_layout
  layout_error (text t) = misfit_error (validate_yaml_indentation canonical_of t)

  abbrev pub error_of : List TestError → Option CheckError
  error_of [] = none
  error_of (e ∷ es) = some (bad_tests (e ∷ es))

  abbrev pub tests_error : Option Info → Option CheckError
  tests_error none = none
  tests_error (some i) = error_of (validate_declared_tests disk 0 i.tests)

  abbrev pub has_no_tests : Option Info → Bool
  has_no_tests none = false
  has_no_tests (some i) = elim i.tests [ [] ↦ true | t ∷ ts ↦ false ]

  abbrev pub fail_or : String → Option CheckError → Loaded → Loaded
  fail_or name none later = later
  fail_or name (some e) later = stop (failed name e)

  abbrev pub replayed : RegressionEntry → List Event → Loaded
  replayed e [] = stop (ignore_or (failed e.rule_name no_events))
  replayed e (v ∷ vs) = go e (v ∷ vs)

  abbrev pub evtx_events : RegressionEntry → Option (List Event) → Loaded
  evtx_events e none = stop (failed e.rule_name evtx_error)
  evtx_events e (some vs) = replayed e vs

  abbrev pub events_of : RegressionEntry → LogType → List ℕ → Loaded
  events_of e evtx bs = evtx_events e (parse_evtx bs)
  events_of e log bs = replayed e (parse_auditd_lines parsers bs).0
  events_of e json bs = replayed e (parse_json_lines parsers bs)
  events_of e raw bs = stop skipped

  abbrev pub raw_events : RegressionEntry → Option (List ℕ) → Loaded
  raw_events e none = stop (ignore_or (failed e.rule_name no_raw_data))
  raw_events e (some bs) = events_of e e.logtype bs

  -- The validations in their order, up to the events.
  abbrev pub load_entry : Stored → Option RegressionEntry → Loaded
  load_entry f none = stop (ignore_or no_entry)
  load_entry f (some e) = fail_or e.rule_name (json_error f.info) (
      fail_or e.rule_name (layout_error f.layout) (
        if has_no_tests f.info
        then stop (ignore_or (failed e.rule_name bad_info))
        else fail_or e.rule_name (tests_error f.info) (raw_events e f.raw_data)))

  unfoldable pub load : Stored → Loaded
  unfolding validate_json_auxiliary validate_yaml_indentation validate_declared_tests
      parse_auditd_lines parse_json_lines
  load f = load_entry f f.entry

  -- The declared count of the first test, or 0.
  abbrev pub declared_count : Option Info → ℕ
  declared_count none = 0
  declared_count (some i) = elim i.tests [ [] ↦ 0 | t ∷ ts ↦ t.match_count ]

  abbrev pub is_of : ℕ → Alert → Bool
  is_of id a = a.rule_id == id

  abbrev pub judged : Stored → RegressionEntry → List Alert → Outcome
  judged f e alerts =
      let count = length (keep (is_of e.rule_id) alerts) in
      let expected = declared_count f.info in
      if any (is_of e.rule_id) alerts
      then (if f.json_records && (ltb 0 expected && not (count == expected))
          then failed e.rule_name (count_mismatch expected count)
          else passed)
      else failed e.rule_name not_matched

  module _ {Engine : Type 0} (evaluate_batch : Engine → List Json → List (List MatchHeader)) where
    abbrev pub replay : Stored → Loaded → DetectionEngine Engine → Outcome × DetectionEngine Engine
    replay f (stop o) s = (o, s)
    replay f (go e events) s =
        let (s', alerts) = get_alerts (process_events evaluate_batch (put_events events s)) in
        (judged f e alerts, s')

    -- The body of the loop.
    unfoldable pub check_entry : Stored → DetectionEngine Engine → Outcome × DetectionEngine Engine
    unfolding load put_events process_events get_alerts
    check_entry f s = replay f (load f) s

    -- The outcomes of all entries.
    unfoldable pub check_entries : List Stored → DetectionEngine Engine → List Outcome
    unfolding check_entry
    check_entries [] s = []
    check_entries (f ∷ fs) s = let (o, s') = check_entry f s in o ∷ check_entries fs s'

-- The counters of `main`.
pub record Tally : Type 0 where
  pub total : ℕ
  pub passes : ℕ
  pub skips : ℕ
  pub ignores : ℕ
  pub failures : List (String × CheckError)

-- How an outcome is counted.
unfoldable pub count : Outcome → Tally → Tally
count passed t = record t { total = t.total + 1; passes = t.passes + 1 }
count skipped t = record t { total = t.total + 1; skips = t.skips + 1 }
count ignored t = record t { ignores = t.ignores + 1 }
count no_entry t = record t { total = t.total + 1 }
count (failed name e) t = record t { total = t.total + 1; failures = t.failures ++ (name, e) ∷ [] }

unfoldable pub tally : List Outcome → Tally → Tally
unfolding count
tally [] t = t
tally (o ∷ os) t = tally os (count o t)

-- The exit of `main` behind the loop: whether it reports failure.
unfoldable pub reports_failure : PathValidation → Tally → Bool
reports_failure v t = ltb 0 (v.missing_path + v.mismatched_path) || ltb 0 (length t.failures)

-- The pass rate as a fraction: `passed / (total + skipped)`, or nothing.
unfoldable pub pass_rate : Tally → Option (ℕ × ℕ)
pass_rate t = if ltb 0 t.total then some (t.passes, t.total + t.skips) else none
