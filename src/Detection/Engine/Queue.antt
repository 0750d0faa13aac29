-- ===== src/Detection/Engine/Queue.antt =====
-- The queue of the engine of detection/mod.rs under any sequence of its operations.
use sigmacatch.Json.{Json}
use sigmacatch.Event.Payload.{Event}
use sigmacatch.Detection.Engine.{
  Alert, DetectionEngine, MatchHeader, alert_of, get_alerts, process_events, put_event, put_events,
  zip_alerts, is_empty,
}
use sigmacatch.Prelude.{
  Bool-cases, List, [], ap, append-nil, append_assoc, arith, inl, inr, length, length-append, map,
  refl, sym, ◌++◌, ◌+◌, ◌∙◌, ◌∷◌, ◌≡◌,
}

pub data Op : Type 0 where
  put : List Event → Op
  put_one : Event → Op
  process : Op
  take_alerts : Op

-- The events that are put, in order.
abbrev pub offered : List Op → List Event
offered [] = []
offered (put es ∷ ops) = es ++ offered ops
offered (put_one e ∷ ops) = e ∷ offered ops
offered (process ∷ ops) = offered ops
offered (take_alerts ∷ ops) = offered ops

module _ {Engine : Type 0} (evaluate_batch : Engine → List Json → List (List MatchHeader)) where
  -- The engine behind the operations, and the alerts that were taken.
  unfoldable pub run : List Op → DetectionEngine Engine → DetectionEngine Engine × List Alert
  unfolding put_events put_event process_events get_alerts
  run [] s = (s, [])
  run (put es ∷ ops) s = run ops (put_events es s)
  run (put_one e ∷ ops) s = run ops (put_event e s)
  run (process ∷ ops) s = run ops (process_events evaluate_batch s)
  run (take_alerts ∷ ops) s =
      let rest = run ops (get_alerts s).0 in (rest.0, (get_alerts s).1 ++ rest.1)

  -- No operation changes the rules that alerts are named by.
  pub run-rules :
      (ops : List Op) (s : DetectionEngine Engine)
      → ((run ops s).0.rule_paths ≡ s.rule_paths) × ((run ops s).0.rule_id_map ≡ s.rule_id_map)
  unfolding run
  run-rules [] s = (refl, refl)
  run-rules (put es ∷ ops) s = run-rules ops (put_events es s)
  run-rules (put_one e ∷ ops) s = run-rules ops (put_event e s)
  run-rules (take_alerts ∷ ops) s = run-rules ops (get_alerts s).0
  run-rules (process ∷ ops) s =
      let ih = run-rules ops (process_events evaluate_batch s) in
      elim (Bool-cases (is_empty s.events)) [
        | inl none_left ↦ (ih.0 ∙ rw none_left refl, ih.1 ∙ rw none_left refl)
        | inr some_left ↦ (ih.0 ∙ rw some_left refl, ih.1 ∙ rw some_left refl)
      ]

module _ {Engine : Type 0} (evaluate : Engine → Json → List MatchHeader) where
  -- The alerts of events, each evaluated alone.
  abbrev pub alerts_for : DetectionEngine Engine → List Event → List Alert
  alerts_for s [] = []
  alerts_for s (e ∷ es) = map (alert_of s e) (evaluate s.engine e.event_json) ++ alerts_for s es

  alerts_for-append :
      (s : DetectionEngine Engine) (es fs : List Event)
      → alerts_for s (es ++ fs) ≡ alerts_for s es ++ alerts_for s fs
  alerts_for-append s [] fs = refl
  alerts_for-append s (e ∷ es) fs = simp (alerts_for-append s es fs, append_assoc)

  pub zip_alerts-map :
      (s : DetectionEngine Engine) (es : List Event)
      → zip_alerts s es (map (evaluate s.engine) (map (λ e. e.event_json) es)) ≡ alerts_for s es
  unfolding zip_alerts
  zip_alerts-map s [] = refl
  zip_alerts-map s (e ∷ es) =
      ap (λ l. map (alert_of s e) (evaluate s.engine e.event_json) ++ l) (zip_alerts-map s es)

  -- What a run of operations accounts for, from a state to the next.
  pub record Accounts (s : DetectionEngine Engine) (new : List Event) (s' : DetectionEngine Engine)
      (taken : List Alert) : Type 0 where
    pub same_alerts :
        taken ++ (s'.alerts ++ alerts_for s' s'.events) ≡ s.alerts ++ alerts_for s (s.events ++ new)
    pub processed :
        s'.stats.events_processed + length s'.events
        ≡ s.stats.events_processed + (length s.events + length new)
    pub generated : s'.stats.alerts_generated ≡ s.stats.alerts_generated + length taken

  module _ (evaluate_batch : Engine → List Json → List (List MatchHeader))
      (each : (e : Engine) (js : List Json) → evaluate_batch e js ≡ map (evaluate e) js) where
    process_total :
        (s : DetectionEngine Engine) (new : List Event)
        → (let s' = process_events evaluate_batch s in
            s'.alerts ++ alerts_for s' (s'.events ++ new)
            ≡ s.alerts ++ alerts_for s (s.events ++ new))
    unfolding process_events alert_of
    process_total s new = elim (Bool-cases (is_empty s.events)) [
      | inl none_left ↦ rw none_left refl
      | inr some_left ↦
          rw
            (some_left, each s.engine (map (λ e. e.event_json) s.events), zip_alerts-map s s.events)
            (append_assoc s.alerts (alerts_for s s.events) (alerts_for s new)
              ∙ ap (λ l. s.alerts ++ l) (sym (alerts_for-append s s.events new)))
    ]

    process_counts :
        (s : DetectionEngine Engine)
        → (let s' = process_events evaluate_batch s in
            (s'.stats.events_processed + length s'.events
              ≡ s.stats.events_processed + length s.events)
            × (s'.stats.alerts_generated ≡ s.stats.alerts_generated))
    unfolding process_events
    process_counts s = elim (Bool-cases (is_empty s.events)) [
      | inl none_left ↦ rw none_left (refl, refl)
      | inr some_left ↦ rw some_left (omega arith, refl)
    ]

    -- Whatever the order in which events are put, batches are processed and alerts are taken: the
    -- alerts taken, those that wait, and those that the waiting events will raise are, in this
    -- order, the ones there were and those of every event that waited or was put, each evaluated
    -- alone. The counters count the events processed and the alerts taken.
    pub run-Accounts :
        (ops : List Op) (s : DetectionEngine Engine)
        → Accounts s (offered ops) (run evaluate_batch ops s).0 (run evaluate_batch ops s).1
    unfolding run alert_of
    run-Accounts [] s = record {
      same_alerts = rw (append-nil s.events) refl;
      processed = omega arith;
      generated = omega arith;
    }
    run-Accounts (put es ∷ ops) s =
        let ih = run-Accounts ops (put_events es s) in
        record {
          same_alerts =
              ih.same_alerts
              ∙ ap (λ l. s.alerts ++ alerts_for s l) (append_assoc s.events es (offered ops));
          processed =
              omega
                (arith, ih.processed, length-append s.events es, length-append es (offered ops));
          generated = ih.generated;
        }
    run-Accounts (put_one e ∷ ops) s =
        let ih = run-Accounts ops (put_event e s) in
        record {
          same_alerts =
              ih.same_alerts
              ∙ ap (λ l. s.alerts ++ alerts_for s l) (append_assoc s.events (e ∷ []) (offered ops));
          processed = omega (arith, ih.processed, length-append s.events (e ∷ []));
          generated = ih.generated;
        }
    run-Accounts (process ∷ ops) s =
        let ih = run-Accounts ops (process_events evaluate_batch s) in
        let counts = process_counts s in
        record {
          same_alerts = ih.same_alerts ∙ process_total s (offered ops);
          processed = omega (arith, ih.processed, counts.0);
          generated = omega (arith, ih.generated, counts.1);
        }
    run-Accounts (take_alerts ∷ ops) s =
        let ih = run-Accounts ops (get_alerts s).0 in
        record {
          same_alerts = append_assoc s.alerts _ _ ∙ ap (λ l. s.alerts ++ l) ih.same_alerts;
          processed = ih.processed;
          generated = omega (
            arith,
            ih.generated,
            length-append s.alerts (run evaluate_batch ops (get_alerts s).0).1,
          );
        }
