-- ===== src/Check/Replay/Passing.antt =====
-- An entry of the check tool that passes.
use sigmacatch.Check.Replay.Laws.{idle}
use sigmacatch.Check.Events.{parse_auditd_lines, parse_json_lines}
use sigmacatch.Detection.Engine.Queue.{alerts_for, zip_alerts-map}
use sigmacatch.Event.Payload.{Event}
use sigmacatch.Json.{Json}
use sigmacatch.Detection.Engine.{
  DetectionEngine, EngineStats, MatchHeader, alert_of, Alert, zip_alerts,
}
use sigmacatch.Check.Replay.{
  evtx, json, raw, log, no_events, no_raw_data, bad_info, passed, skipped, ignored, no_entry,
  failed, stop, go, Loaded, Setting, Stored, replay, Outcome, check_entry, load, CheckError,
  RegressionEntry, fail_or, has_no_tests, json_error, layout_error, raw_events, replayed,
  tests_error, LogType, events_of, evtx_events, ignore_or, is_of, judged, load_entry,
}
use sigmacatch.Prelude.{
  Bool, Bool-cases, List, Option, String, [], any, ap, false, has, inl, inr, map, none, refl, some,
  sym, true, ℕ, ◌∙◌, ◌∷◌, ◌≡◌,
}

module _ (setting : Setting) where
  fail_or-go :
      (name : String) (o : Option CheckError) (l : Loaded) {e : RegressionEntry} {vs : List Event}
      → fail_or setting name o l ≡ go e vs
      → (o ≡ none) × (l ≡ go e vs)
  fail_or-go name none l h = (refl, h)
  fail_or-go name (some c) l h = absurd (cc)

  -- What holds of an entry that goes on to the replay.
  pub record IsValid (f : Stored) (e : RegressionEntry) (vs : List Event) : Type 0 where
    pub auxiliary : json_error setting f.info ≡ none
    pub layout : layout_error setting f.layout ≡ none
    pub has_tests : has_no_tests setting f.info ≡ false
    pub tests : tests_error setting f.info ≡ none
    pub events : raw_events setting e f.raw_data ≡ go e vs

  stop_or-go :
      (o : Outcome) {e : RegressionEntry} {vs : List Event}
      → stop (ignore_or setting o) ≡ go e vs
      → ⊥
  stop_or-go o h = elim (Bool-cases setting.ignore_invalid) [
    | inl t ↦ cc (rw t at h)
    | inr f ↦ cc (rw f at h)
  ]

  replayed-go :
      (e : RegressionEntry) (us : List Event) {e' : RegressionEntry} {vs : List Event}
      → replayed setting e us ≡ go e' vs
      → e ≡ e'
  replayed-go e [] h = absurd (stop_or-go (failed e.rule_name no_events) h)
  replayed-go e (u ∷ us) h = cc

  evtx_events-go :
      (e : RegressionEntry) (o : Option (List Event)) {e' : RegressionEntry} {vs : List Event}
      → evtx_events setting e o ≡ go e' vs
      → e ≡ e'
  evtx_events-go e none h = absurd (cc)
  evtx_events-go e (some us) h = replayed-go e us h

  events_of-go :
      (e : RegressionEntry) (t : LogType) (bs : List ℕ) {e' : RegressionEntry} {vs : List Event}
      → events_of setting e t bs ≡ go e' vs
      → e ≡ e'
  events_of-go e evtx bs h = evtx_events-go e (setting.parse_evtx bs) h
  events_of-go e log bs h = replayed-go e (parse_auditd_lines setting.parsers bs).0 h
  events_of-go e json bs h = replayed-go e (parse_json_lines setting.parsers bs) h
  events_of-go e raw bs h = absurd (cc)

  raw_events-go :
      (e : RegressionEntry) (o : Option (List ℕ)) {e' : RegressionEntry} {vs : List Event}
      → raw_events setting e o ≡ go e' vs
      → e ≡ e'
  raw_events-go e none h = absurd (stop_or-go (failed e.rule_name no_raw_data) h)
  raw_events-go e (some bs) h = events_of-go e e.logtype bs h

  load_entry-go :
      (f : Stored) (o : Option RegressionEntry) {e : RegressionEntry} {vs : List Event}
      → load_entry setting f o ≡ go e vs
      → (o ≡ some e) × IsValid f e vs
  load_entry-go f none h = absurd (stop_or-go no_entry h)
  load_entry-go f (some e') {e} {vs} h =
      let (auxiliary, h1) = fail_or-go e'.rule_name (json_error setting f.info) _ h in
      let (layout, h2) = fail_or-go e'.rule_name (layout_error setting f.layout) _ h1 in
      elim (Bool-cases (has_no_tests setting f.info)) [
        | inl t ↦ absurd (stop_or-go (failed e'.rule_name bad_info) (rw t at h2))
        | inr has ↦
            let (tests, h3) =
              fail_or-go e'.rule_name (tests_error setting f.info)
                (raw_events setting e' f.raw_data) (rw has at h2) in
            let same : e' ≡ e = raw_events-go e' f.raw_data h3 in
            (
              ap some same,
              record {
                auxiliary = auxiliary;
                layout = layout;
                has_tests = has;
                tests = tests;
                events = ap (λ x. raw_events setting x f.raw_data) (sym same) ∙ h3;
              },
            )
      ]

  -- No entry passes without a replay.
  abbrev is_passed : Outcome → Bool
  is_passed passed = true
  is_passed skipped = false
  is_passed ignored = false
  is_passed no_entry = false
  is_passed (failed name e) = false

  abbrev stops_passed : Loaded → Bool
  stops_passed (stop o) = is_passed o
  stops_passed (go e vs) = false

  stops-ignore_or : (o : Outcome) → is_passed o ≡ false → is_passed (ignore_or setting o) ≡ false
  stops-ignore_or o h = elim (Bool-cases setting.ignore_invalid) [
    | inl t ↦ rw t refl
    | inr f ↦ rw f h
  ]

  stops-fail_or :
      (name : String) (o : Option CheckError) (l : Loaded)
      → stops_passed l ≡ false
      → stops_passed (fail_or setting name o l) ≡ false
  stops-fail_or name none l h = h
  stops-fail_or name (some e) l h = refl

  stops-replayed :
      (e : RegressionEntry) (vs : List Event) → stops_passed (replayed setting e vs) ≡ false
  stops-replayed e [] = stops-ignore_or (failed e.rule_name no_events) refl
  stops-replayed e (v ∷ vs) = refl

  stops-evtx_events :
      (e : RegressionEntry) (o : Option (List Event))
      → stops_passed (evtx_events setting e o) ≡ false
  stops-evtx_events e none = refl
  stops-evtx_events e (some vs) = stops-replayed e vs

  stops-events_of :
      (e : RegressionEntry) (t : LogType) (bs : List ℕ)
      → stops_passed (events_of setting e t bs) ≡ false
  stops-events_of e evtx bs = stops-evtx_events e (setting.parse_evtx bs)
  stops-events_of e log bs = stops-replayed e (parse_auditd_lines setting.parsers bs).0
  stops-events_of e json bs = stops-replayed e (parse_json_lines setting.parsers bs)
  stops-events_of e raw bs = refl

  stops-raw_events :
      (e : RegressionEntry) (o : Option (List ℕ)) → stops_passed (raw_events setting e o) ≡ false
  stops-raw_events e none = stops-ignore_or (failed e.rule_name no_raw_data) refl
  stops-raw_events e (some bs) = stops-events_of e e.logtype bs

  stops-load_entry :
      (f : Stored) (o : Option RegressionEntry) → stops_passed (load_entry setting f o) ≡ false
  stops-load_entry f none = stops-ignore_or no_entry refl
  stops-load_entry f (some e) = stops-fail_or e.rule_name (json_error setting f.info) _ (
      stops-fail_or e.rule_name (layout_error setting f.layout) _
        (elim (Bool-cases (has_no_tests setting f.info)) [
          | inl t ↦ rw t (stops-ignore_or (failed e.rule_name bad_info) refl)
          | inr g ↦ rw g (
              stops-fail_or e.rule_name (tests_error setting f.info) _
                (stops-raw_events e f.raw_data))
        ]))

  module _ {Engine : Type 0} (evaluate : Engine → Json → List MatchHeader)
      (evaluate_batch : Engine → List Json → List (List MatchHeader))
      (each : (e : Engine) (js : List Json) → evaluate_batch e js ≡ map (evaluate e) js) where
    judged-passed :
        (f : Stored) (e : RegressionEntry) (alerts : List Alert)
        → judged setting f e alerts ≡ passed
        → any (is_of setting e.rule_id) alerts ≡ true
    judged-passed f e alerts h = elim (Bool-cases (any (is_of setting e.rule_id) alerts)) [
      | inl t ↦ t
      | inr g ↦ absurd (cc (rw g at h))
    ]

    -- An entry passes only if its files and its `info.yml` are in order, its declared tests have no
    -- error, its data gives events, and one of these events, evaluated alone by the rules loaded,
    -- raises an alert of the entry's rule.
    pub check_entry-passed :
        (f : Stored) (s : DetectionEngine Engine) (stats : EngineStats)
        → (check_entry setting evaluate_batch f (idle s stats)).0 ≡ passed
        → (e : RegressionEntry) × (vs : List Event) × (f.entry ≡ some e)
          × IsValid f e vs
          × (any (is_of setting e.rule_id) (alerts_for evaluate s vs) ≡ true)
    unfolding check_entry load alert_of
    check_entry-passed f s stats h = on (load_entry setting f f.entry) refl h
      where
        on :
            (l : Loaded)
            → load_entry setting f f.entry ≡ l
            → (replay setting evaluate_batch f l (idle s stats)).0 ≡ passed
            → (e : RegressionEntry) × (vs : List Event) × (f.entry ≡ some e)
              × IsValid f e vs
              × (any (is_of setting e.rule_id) (alerts_for evaluate s vs) ≡ true)
        on (stop o) el k = absurd (cc (ap stops_passed el, stops-load_entry f f.entry))
        on (go e []) el k = absurd (cc (judged-passed f e [] k))
        on (go e (v ∷ vs)) el k =
            let (entry, valid) = load_entry-go f f.entry el in
            (
              e,
              v ∷ vs,
              entry,
              valid,
              ap (any (is_of setting e.rule_id)) (
                    sym (zip_alerts-map evaluate s (v ∷ vs))
                    ∙ ap (zip_alerts s (v ∷ vs))
                        (sym (each s.engine (map (λ w. w.event_json) (v ∷ vs)))))
                  ∙ judged-passed f e _ k,
            )
