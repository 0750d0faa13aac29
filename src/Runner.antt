-- ===== src/Runner.antt =====
-- sigmacatch/src/runner.rs: the loop that collects events, and the cycle that turns the alerts of a
-- batch into regression data. The engine of detection/mod.rs and the regression data are an
-- interface here; the rule set is that of Rules.
pub mod Cycle
pub mod Rounds
pub mod Limit
pub mod Examples
use sigmacatch.Rules.{Platform, SigmahqRules, Uuid}
use sigmacatch.Rules.Lookup.{remove_id}
use sigmacatch.Prelude.{
  Bool, List, Option, [], false, if◌then◌else◌, leb, none, some, true, ℕ, ◌&&◌, ◌++◌, ◌+◌, ◌||◌,
  ◌∷◌,
}

-- What the loop calls, as state passing. `add` also works on files: they belong to `Regression`.
pub record Parts : Type 1 where
  pub Event : Type 0
  pub Engine : Type 0
  pub Regression : Type 0
  pub Alert : Type 0
  pub File : Type 0
  pub put_event : Engine → Event → Engine
  pub process_events : Engine → Engine
  pub get_alerts : Engine → List Alert × Engine
  pub reload_rules : Engine → SigmahqRules → Engine
  pub rule_id : Alert → Uuid
  pub begin_cycle : Regression → Regression
  pub add : Regression → Alert → Option (List File) × Regression
  pub take_blocked : Regression → List Uuid × Regression

module _ (platform : Platform) (parts : Parts) where
  open parts use {
    Event, Engine, Regression, Alert, File, put_event, process_events, get_alerts, reload_rules,
    rule_id, begin_cycle, add, take_blocked,
  }

  -- `Pipeline`
  pub record Pipeline : Type 0 where
    pub engine : Engine
    pub rules : SigmahqRules
    pub regression : Regression

  abbrev pub Batches : Type 0
  Batches = List (Uuid × List File)

  abbrev pub batch_of : Uuid → Option (List File) → Batches → Batches
  batch_of id none rest = rest
  batch_of id (some files) rest = (id, files) ∷ rest

  -- `for alert in alerts`: the batches, whose ids are those retired, and the state behind.
  unfoldable pub add_all : List Alert → Regression → Batches × Regression
  add_all [] r = ([], r)
  add_all (alert ∷ alerts) r =
      let (files, r') = add r alert in
      let (rest, r'') = add_all alerts r' in (batch_of (rule_id alert) files rest, r'')

  abbrev pub ids_of : Batches → List Uuid
  ids_of [] = []
  ids_of ((id, files) ∷ bs) = id ∷ ids_of bs

  -- `for id in &retired_ids { pipeline.rules.remove_id(id); }`
  unfoldable pub remove_all : List Uuid → SigmahqRules → SigmahqRules
  unfolding remove_id
  remove_all [] rules = rules
  remove_all (id ∷ ids) rules = remove_all ids (remove_id platform rules id).0

  abbrev pub reloaded : List Uuid → Engine → SigmahqRules → Engine
  reloaded [] e rules = e
  reloaded (id ∷ ids) e rules = reload_rules e rules

  -- The part of `process_and_generate` behind the early return.
  abbrev pub generate_batches : Engine → List Alert → Pipeline → Pipeline × Batches
  generate_batches e alerts p =
      let (batches, r) = add_all alerts (begin_cycle p.regression) in
      let (blocked, r') = take_blocked r in
      let retired = ids_of batches ++ blocked in
      let rules = remove_all retired p.rules in
      (record { engine = reloaded retired e rules; rules = rules; regression = r' }, batches)

  abbrev pub with_alerts : List Alert → Engine → Pipeline → Pipeline × Batches
  with_alerts [] e p = (record p { engine = e }, [])
  with_alerts (a ∷ more) e p = generate_batches e (a ∷ more) p

  -- `process_and_generate`
  unfoldable pub process_and_generate : Pipeline → Pipeline × Batches
  unfolding add_all remove_all
  process_and_generate p =
      let (alerts, e) = get_alerts (process_events p.engine) in with_alerts alerts e p

  -- What `select!` takes in a round: the shutdown, what the channel gives (`none`: it is closed), or
  -- the timer, with the result of the blocking task and of the upload.
  pub data Round : Type 0 where
    shutdown : Round
    received : Option Event → Round
    tick : (panics : Bool) → (uploaded : Bool) → Round

  -- The variables of the loop, the batches that were handed to the upload, and whether it has ended.
  pub record Loop : Type 0 where
    pub pipeline_slot : Option Pipeline
    pub dropped_while_generating : ℕ
    pub runs_completed : ℕ
    pub branch_pushed : Bool
    pub uploads : List Batches
    pub ended : Bool

  -- `upload_regression` with its early return: the flag is set on the first push that succeeds.
  unfoldable pub upload_regression : (contrib : Bool) → (uploaded : Bool) → Batches → Loop → Loop
  upload_regression contrib uploaded [] s = s
  upload_regression contrib uploaded (b ∷ bs) s = record s {
    uploads = s.uploads ++ (b ∷ bs) ∷ [];
    branch_pushed = s.branch_pushed || (uploaded && contrib);
  }

  abbrev pub reaches : Option ℕ → ℕ → Bool
  reaches none n = false
  reaches (some limit) n = leb limit n

  -- The arm of the timer on a pipeline: the blocking task is awaited in the arm.
  abbrev pub cycle : (contrib : Bool) → (max_runs : Option ℕ) → Bool → Bool → Pipeline → Loop → Loop
  cycle contrib max_runs true uploaded p s = record s { pipeline_slot = none; ended = true }
  cycle contrib max_runs false uploaded p s =
      let (returned, batches) = process_and_generate p in
      let runs = s.runs_completed + 1 in
      let back = record s {
        pipeline_slot = some returned;
        runs_completed = runs;
        dropped_while_generating = 0;
      } in
      record (upload_regression contrib uploaded batches back) { ended = reaches max_runs runs }

  abbrev pub receive : Event → Option Pipeline → Loop → Loop
  receive event none s = record s { dropped_while_generating = s.dropped_while_generating + 1 }
  receive event (some p) s = record s {
    pipeline_slot = some (record p { engine = put_event p.engine event });
  }

  abbrev pub on_tick :
      (contrib : Bool) → (max_runs : Option ℕ) → Bool → Bool → Option Pipeline → Loop → Loop
  on_tick contrib max_runs panics uploaded none s = s
  on_tick contrib max_runs panics uploaded (some p) s = cycle contrib max_runs panics uploaded p s

  -- A round of the loop.
  unfoldable pub round : (contrib : Bool) → (max_runs : Option ℕ) → Round → Loop → Loop
  unfolding process_and_generate upload_regression
  round contrib max_runs shutdown s = record s { ended = true }
  round contrib max_runs (received none) s = record s { ended = true }
  round contrib max_runs (received (some event)) s = receive event s.pipeline_slot s
  round contrib max_runs (tick panics uploaded) s =
      on_tick contrib max_runs panics uploaded s.pipeline_slot s

  -- The loop: nothing is taken any more once it has ended.
  unfoldable pub rounds : (contrib : Bool) → (max_runs : Option ℕ) → List Round → Loop → Loop
  unfolding round
  rounds contrib max_runs [] s = s
  rounds contrib max_runs (r ∷ rs) s =
      let later = rounds contrib max_runs rs (round contrib max_runs r s) in
      if s.ended then s else later

  abbrev pub put_all : List Event → Engine → Engine
  put_all [] e = e
  put_all (event ∷ events) e = put_all events (put_event e event)

  -- The final flush: the events that are left, a last cycle (a panic gives no batch) and its upload.
  abbrev pub flush_pipeline :
      (contrib panics uploaded : Bool) → List Event → Option Pipeline → Loop → Loop
  flush_pipeline contrib panics uploaded left none s = s
  flush_pipeline contrib true uploaded left (some p) s = record s { pipeline_slot = none }
  flush_pipeline contrib false uploaded left (some p) s =
      let drained = record p { engine = put_all left p.engine } in
      upload_regression contrib uploaded (process_and_generate drained).1
        (record s { pipeline_slot = none })

  unfoldable pub final_flush : (contrib panics uploaded : Bool) → List Event → Loop → Loop
  unfolding process_and_generate upload_regression
  final_flush contrib panics uploaded left s =
      flush_pipeline contrib panics uploaded left s.pipeline_slot s
