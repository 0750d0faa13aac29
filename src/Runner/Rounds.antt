-- ===== src/Runner/Rounds.antt =====
-- What the loop of the runner keeps.
use sigmacatch.Rules.{Platform}
use sigmacatch.Runner.{
  shutdown, received, tick, Batches, Loop, Parts, Pipeline, Round, cycle, process_and_generate,
  round, rounds, upload_regression, reaches,
}
use sigmacatch.Prelude.{
  Bool, List, Option, [], ap, append-nil, append_assoc, arith, false, if◌then◌else◌, leb, none,
  refl, some, subst, sym, true, ℕ, ◌++◌, ◌+◌, ◌-◌, ◌∙◌, ◌∷◌, ◌≡◌,
}

-- What the loop does with its pipeline: an event is put into the engine, or a cycle is run.
pub data Step (Event : Type 0) : Type 0 where
  put : Event → Step Event
  generate : (uploaded : Bool) → Step Event

-- The cycles that are left of the limit, when `n` were run.
abbrev pub left_of : Option ℕ → ℕ → Option ℕ
left_of none n = none
left_of (some limit) n = some (limit - n)

abbrev pub is_last : Option ℕ → Bool
is_last none = false
is_last (some k) = leb k 1

module _ (platform : Platform) (parts : Parts) where
  open parts use {Event, put_event}

  -- The steps of some rounds: all of them up to the shutdown, the end of the channel, a panic or the
  -- last cycle that the limit allows.
  abbrev pub steps : Option ℕ → List (Round platform parts) → List (Step Event)
  steps left [] = []
  steps left (shutdown ∷ rs) = []
  steps left (received none ∷ rs) = []
  steps left (received (some event) ∷ rs) = put event ∷ steps left rs
  steps left (tick true uploaded ∷ rs) = []
  steps left (tick false uploaded ∷ rs) =
      let more = steps (left_of left 1) rs in
      generate uploaded ∷ (if is_last left then [] else more)

  -- Whether the rounds end by a panic.
  abbrev pub ends_in_panic : Option ℕ → List (Round platform parts) → Bool
  ends_in_panic left [] = false
  ends_in_panic left (shutdown ∷ rs) = false
  ends_in_panic left (received none ∷ rs) = false
  ends_in_panic left (received (some event) ∷ rs) = ends_in_panic left rs
  ends_in_panic left (tick true uploaded ∷ rs) = true
  ends_in_panic left (tick false uploaded ∷ rs) =
      let more = ends_in_panic (left_of left 1) rs in if is_last left then false else more

  abbrev pub handed : Batches platform parts → List (Batches platform parts)
  handed [] = []
  handed (b ∷ bs) = (b ∷ bs) ∷ []

  -- The pipeline alone, without the slot that it is taken from: it and the uploads behind some steps.
  abbrev pub replay :
      List (Step Event)
      → Pipeline platform parts
      → Pipeline platform parts × List (Batches platform parts)
  replay [] p = (p, [])
  replay (put event ∷ ss) p = replay ss (record p { engine = put_event p.engine event })
  replay (generate uploaded ∷ ss) p =
      let (p', batches) = process_and_generate platform parts p in
      let (last, uploads) = replay ss p' in (last, handed batches ++ uploads)

module _ (platform : Platform) (parts : Parts) (contrib : Bool) (max_runs : Option ℕ) where
  open parts use {Event}

  abbrev slot_of : Bool → Pipeline platform parts → Option (Pipeline platform parts)
  slot_of true p = none
  slot_of false p = some p

  -- Nothing was dropped, and the pipeline and the uploads are those of a replay.
  abbrev pub IsReplayed :
      Loop platform parts
      → Bool
      → Pipeline platform parts × List (Batches platform parts)
      → Loop platform parts
      → Type 0
  IsReplayed s panicked (p, uploads) s' =
      (s'.pipeline_slot ≡ slot_of panicked p)
      × (s'.uploads ≡ s.uploads ++ uploads)
      × (s'.dropped_while_generating ≡ 0)

  -- What an upload leaves of the loop.
  pub upload_lem :
      (uploaded : Bool) (bs : Batches platform parts) (s : Loop platform parts)
      → (let s' = upload_regression platform parts contrib uploaded bs s in
          (s'.dropped_while_generating ≡ s.dropped_while_generating)
          × (s'.pipeline_slot ≡ s.pipeline_slot)
          × (s'.runs_completed ≡ s.runs_completed)
          × (s'.uploads ≡ s.uploads ++ handed platform parts bs))
  unfolding upload_regression
  upload_lem uploaded [] s = (refl, refl, refl, sym (append-nil s.uploads))
  upload_lem uploaded (b ∷ bs) s = (refl, refl, refl, refl)

  rounds-ended :
      (rs : List (Round platform parts)) (s : Loop platform parts)
      → s.ended ≡ true
      → rounds platform parts contrib max_runs rs s ≡ s
  unfolding rounds
  rounds-ended [] s h = refl
  rounds-ended (r ∷ rs) s h = rw h refl

  rounds-going :
      (r : Round platform parts) (rs : List (Round platform parts)) (s : Loop platform parts)
      → s.ended ≡ false
      → rounds platform parts contrib max_runs (r ∷ rs) s
        ≡ rounds platform parts contrib max_runs rs (round platform parts contrib max_runs r s)
  unfolding rounds
  rounds-going r rs s h = rw h refl

  is_last-left_of :
      (m : Option ℕ) (n : ℕ) → is_last (left_of m n) ≡ reaches platform parts m (n + 1)
  is_last-left_of none n = refl
  is_last-left_of (some limit) n = ground arith

  left_of-left_of : (m : Option ℕ) (n : ℕ) → left_of (left_of m n) 1 ≡ left_of m (n + 1)
  left_of-left_of none n = refl
  left_of-left_of (some limit) n = ap some (omega arith)

  -- Behind a cycle that gave `more`, the loop is over or goes on.
  after_cycle :
      (s t : Loop platform parts) (more : List (Batches platform parts))
      (q : Pipeline platform parts) (rs : List (Round platform parts)) (panicked : Bool)
      (ss : List (Step Event)) (over : Bool)
      → t.ended ≡ over
      → t.pipeline_slot ≡ some q
      → t.uploads ≡ s.uploads ++ more
      → t.dropped_while_generating ≡ 0
      → (over ≡ false
          → IsReplayed t panicked
              (replay platform parts ss q)
              (rounds platform parts contrib max_runs rs t))
      → (let (last, uploads) = replay platform parts (if over then [] else ss) q in
          IsReplayed s
            (if over then false else panicked)
            (last, more ++ uploads)
            (rounds platform parts contrib max_runs rs t))
  after_cycle s t more q rs panicked ss true ended slot uploads dropped later =
      rw (rounds-ended rs t ended)
        (slot, uploads ∙ ap (λ l. s.uploads ++ l) (sym (append-nil more)), dropped)
  after_cycle s t more q rs panicked ss false ended slot uploads dropped later =
      let (slot', uploads', dropped') = later refl in
      let behind = (replay platform parts ss q).1 in
      (
        slot',
        uploads' ∙ (ap (λ l. l ++ behind) uploads ∙ append_assoc s.uploads more behind),
        dropped',
      )

  -- Whatever comes, the loop does with its pipeline what the replay of the rounds does, up to the
  -- shutdown, the end of the channel, a panic or the last cycle that the limit allows: each event
  -- received is put into the engine, in order, a cycle is run at each tick, and what the cycles
  -- generate is handed to the upload. Only a panic leaves the slot empty, and no event is counted as
  -- dropped. This is for a loop that has not ended and has its pipeline.
  pub rounds-IsReplayed :
      (rs : List (Round platform parts)) (p : Pipeline platform parts) (s : Loop platform parts)
      → s.ended ≡ false
      → s.pipeline_slot ≡ some p
      → s.dropped_while_generating ≡ 0
      → (let left = left_of max_runs s.runs_completed in
          IsReplayed s
            (ends_in_panic platform parts left rs)
            (replay platform parts (steps platform parts left rs) p)
            (rounds platform parts contrib max_runs rs s))
  unfolding rounds round
  rounds-IsReplayed [] p s going slot dropped = (slot, sym (append-nil s.uploads), dropped)
  rounds-IsReplayed (shutdown ∷ rs) p s going slot dropped =
      rw (rounds-going shutdown rs s going, rounds-ended rs (record s { ended = true }) refl)
        (slot, sym (append-nil s.uploads), dropped)
  rounds-IsReplayed (received none ∷ rs) p s going slot dropped =
      rw (rounds-going (received none) rs s going, rounds-ended rs (record s { ended = true }) refl)
        (slot, sym (append-nil s.uploads), dropped)
  rounds-IsReplayed (received (some event) ∷ rs) p s going slot dropped =
      let q = record p { engine = parts.put_event p.engine event } in
      rw (rounds-going (received (some event)) rs s going, slot)
        (rounds-IsReplayed rs q (record s { pipeline_slot = some q }) going refl dropped)
  rounds-IsReplayed (tick true uploaded ∷ rs) p s going slot dropped =
      rw
        (
          rounds-going (tick true uploaded) rs s going,
          slot,
          rounds-ended rs (record s { pipeline_slot = none; ended = true }) refl,
        )
        (refl, sym (append-nil s.uploads), dropped)
  rounds-IsReplayed (tick false uploaded ∷ rs) p s going slot dropped =
      let t = cycle platform parts contrib max_runs false uploaded p s in
      let (returned, batches) = process_and_generate platform parts p in
      let runs = s.runs_completed + 1 in
      let back = record s {
        pipeline_slot = some returned;
        runs_completed = runs;
        dropped_while_generating = 0;
      } in
      let (same_dropped, same_slot, same_runs, more) = upload_lem uploaded batches back in
      let left = left_of max_runs runs in
      let last = is_last-left_of max_runs s.runs_completed in
      rw
        (
          rounds-going (tick false uploaded) rs s going,
          slot,
          last,
          left_of-left_of max_runs s.runs_completed,
        )
        (after_cycle s t (handed platform parts batches) returned rs
          (ends_in_panic platform parts left rs) (steps platform parts left rs)
          (reaches platform parts max_runs runs) refl same_slot more same_dropped
          (λ goes_on.
            subst
              (λ n.
                IsReplayed t (ends_in_panic platform parts (left_of max_runs n) rs)
                  (replay platform parts (steps platform parts (left_of max_runs n) rs) returned)
                  (rounds platform parts contrib max_runs rs t))
              same_runs (rounds-IsReplayed rs returned t goes_on same_slot same_dropped)))
