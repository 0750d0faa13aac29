-- ===== src/Check/Replay/Laws.antt =====
-- The loop of the check tool over the entries, and its counters.
use sigmacatch.Json.{Json}
use sigmacatch.Detection.Engine.{
  DetectionEngine, EngineStats, MatchHeader, alert_of, get_alerts, process_events, put_events,
}
use sigmacatch.Check.Replay.{
  passed, skipped, ignored, no_entry, failed, stop, go, Loaded, Setting, Stored, replay, Outcome,
  Tally, check_entries, check_entry, count, load, tally,
}
use sigmacatch.Prelude.{
  All, Bool, List, [], ap, ap₂, arith, false, length, length-append, map, refl, suc, true, ℕ, ◌+◌,
  ◌∙◌, ◌∷◌, ◌≡◌,
}

module _ {Engine : Type 0} where
  -- An engine whose queue and alerts are empty, with some counters.
  abbrev pub idle : DetectionEngine Engine → EngineStats → DetectionEngine Engine
  idle s stats = record s { events = []; alerts = []; stats = stats }

  abbrev pub IsIdleOf : DetectionEngine Engine → DetectionEngine Engine → Type 0
  IsIdleOf s s' = (stats : EngineStats) × (s' ≡ idle s stats)

module _ (setting : Setting) {Engine : Type 0}
    (evaluate_batch : Engine → List Json → List (List MatchHeader)) where
  replay-idle :
      (f : Stored) (l : Loaded) (s : DetectionEngine Engine) (stats stats' : EngineStats)
      → ((replay setting evaluate_batch f l (idle s stats)).0
          ≡ (replay setting evaluate_batch f l (idle s stats')).0)
        × IsIdleOf s (replay setting evaluate_batch f l (idle s stats)).1
  unfolding put_events process_events get_alerts alert_of
  replay-idle f (stop o) s stats stats' = (refl, (stats, refl))
  replay-idle f (go e []) s stats stats' = (refl, (_, refl))
  replay-idle f (go e (v ∷ vs)) s stats stats' = (refl, (_, refl))

  -- The outcome of an entry that is checked alone.
  abbrev pub alone : DetectionEngine Engine → Stored → Outcome
  alone s f =
      (check_entry setting evaluate_batch f
        (idle s (record { events_processed = 0; alerts_generated = 0 }))).0

  -- Every entry is judged as if it were checked alone, in their order: no event or alert of one
  -- reaches another.
  pub check_entries-alone :
      (fs : List Stored) (s : DetectionEngine Engine) (stats : EngineStats)
      → check_entries setting evaluate_batch fs (idle s stats) ≡ map (alone s) fs
  unfolding check_entries check_entry
  check_entries-alone [] s stats = refl
  check_entries-alone (f ∷ fs) s stats =
      let (same, (stats', e)) =
        replay-idle f (load setting f) s stats
          (record { events_processed = 0; alerts_generated = 0 }) in
      ap₂ (λ o os. o ∷ os) same
        (ap (check_entries setting evaluate_batch fs) e ∙ check_entries-alone fs s stats')

-- What the counters account for, before and behind some outcomes.
abbrev pub sum : Tally → ℕ
sum t = t.passes + t.skips + length t.failures

abbrev pub is_no_entry : Outcome → Bool
is_no_entry no_entry = true
is_no_entry passed = false
is_no_entry skipped = false
is_no_entry ignored = false
is_no_entry (failed name e) = false

count-sum :
    (o : Outcome) (t : Tally)
    → (is_no_entry o ≡ false)
    → ((count o t).total + sum t ≡ t.total + sum (count o t))
      × ((count o t).total + (count o t).ignores ≡ suc (t.total + t.ignores))
unfolding count
count-sum passed t h = (omega arith, omega arith)
count-sum skipped t h = (omega arith, omega arith)
count-sum ignored t h = (omega arith, omega arith)
count-sum no_entry t h = absurd (cc)
count-sum (failed name e) t h =
    (omega (arith, length-append t.failures ((name, e) ∷ [])), omega arith)

-- The counters account for every outcome: those that are counted in the total passed, were skipped
-- or are listed as failed, and the others were ignored. Every index has an entry.
pub tally-sum :
    (os : List Outcome) (t : Tally)
    → All (λ o. is_no_entry o ≡ false) os
    → ((tally os t).total + sum t ≡ t.total + sum (tally os t))
      × ((tally os t).total + (tally os t).ignores ≡ t.total + t.ignores + length os)
unfolding tally
tally-sum [] t h = (refl, omega arith)
tally-sum (o ∷ os) t (h, hs) =
    let here = count-sum o t h in
    let later = tally-sum os (count o t) hs in
    (omega (arith, here.0, later.0), omega (arith, here.1, later.1))
