-- ===== src/Regression/Failures.antt =====
-- The failure tracking of regression/mod.rs over several cycles.
use sigmacatch.Regression.State.{
  SigmahqRegression, Uuid, begin_cycle, note_generation_failure, count_failure, or_zero,
}
use sigmacatch.Prelude.{
  ==_refl, Bool-cases, List, [], ap, arith, false, find-insert, find-remove, find_entry, has, inl,
  inr, insert_key, leb, length, none, refl, suc, true, zero, ℕ, ◌++◌, ◌+◌, ◌<◌, ◌∙◌, ◌∷◌, ◌≡◌, ◌≤◌,
}

-- A cycle in which the generation for a rule fails `suc n` times.
abbrev fail : ℕ → Uuid → SigmahqRegression → SigmahqRegression
fail zero id s = note_generation_failure id s
fail (suc n) id s = note_generation_failure id (fail n id s)

-- Cycles one behind another, each with some failures more than one.
abbrev pub failed_cycles_of : List ℕ → Uuid → SigmahqRegression → SigmahqRegression
failed_cycles_of [] id s = s
failed_cycles_of (n ∷ ns) id s = failed_cycles_of ns id (fail n id (begin_cycle s))

count_failure-failed :
    (id : Uuid) (n : ℕ) (s : SigmahqRegression)
    → (count_failure id n s).failed_this_cycle ≡ s.failed_this_cycle
count_failure-failed id n s = elim (Bool-cases (leb s.max_failed_cycles n)) [
  | inl t ↦ rw t refl
  | inr f ↦ rw f refl
]

noted :
    (id : Uuid) (s : SigmahqRegression)
    → has id (note_generation_failure id s).failed_this_cycle ≡ true
unfolding note_generation_failure
noted id s = elim (Bool-cases (has id s.failed_this_cycle)) [
  | inl t ↦ rw (t, t) refl
  | inr f ↦ rw f (rw count_failure-failed (rw ==_refl refl))
]

note_again :
    (id : Uuid) (s : SigmahqRegression)
    → has id s.failed_this_cycle ≡ true
    → note_generation_failure id s ≡ s
unfolding note_generation_failure
note_again id s h = rw h refl

-- Further failures of a rule in a cycle change nothing.
fail_more : (n : ℕ) (id : Uuid) (s : SigmahqRegression) → fail n id s ≡ note_generation_failure id s
fail_more zero id s = refl
fail_more (suc n) id s =
    ap (note_generation_failure id) (fail_more n id s)
    ∙ note_again id (note_generation_failure id s) (noted id s)

-- The rule has failed in so many cycles, and the rest of the state is as given.
abbrev pub Counted : Uuid → ℕ → SigmahqRegression → SigmahqRegression → Type 0
Counted id c s t =
    (or_zero (find_entry id t.failed_cycles) ≡ c)
    × (t.retired ≡ s.retired)
    × (t.blocked ≡ s.blocked)
    × (t.max_failed_cycles ≡ s.max_failed_cycles)

-- The rule is blocked: its count is gone, and it will not be captured again.
abbrev pub Blocked : Uuid → SigmahqRegression → SigmahqRegression → Type 0
Blocked id s t =
    (find_entry id t.failed_cycles ≡ none)
    × (has id t.retired ≡ true)
    × (t.blocked ≡ s.blocked ++ id ∷ [])

retired_now : (id : Uuid) (ks : List ℕ) → has id (insert_key id ks).0 ≡ true
retired_now id ks = elim (Bool-cases (has id ks)) [
  | inl t ↦ rw (t, t) refl
  | inr f ↦ rw f (rw ==_refl refl)
]

cycle_counts :
    (n : ℕ) (id : Uuid) (c : ℕ) (s t : SigmahqRegression)
    → suc c < s.max_failed_cycles
    → Counted id c s t
    → Counted id (suc c) s (fail n id (begin_cycle t))
unfolding note_generation_failure begin_cycle
cycle_counts n id c s t below (count, ret, blk, max) =
    let one : or_zero (find_entry id t.failed_cycles) + 1 ≡ suc c = omega arith in
    let small : leb t.max_failed_cycles (suc c) ≡ false = ground arith in
    rw (fail_more n id (begin_cycle t), one, small)
      (rw find-insert (rw ==_refl (refl, ret, blk, max)))

cycle_blocks :
    (n : ℕ) (id : Uuid) (c : ℕ) (s t : SigmahqRegression)
    → suc c ≡ s.max_failed_cycles
    → Counted id c s t
    → Blocked id s (fail n id (begin_cycle t))
unfolding note_generation_failure begin_cycle
cycle_blocks n id c s t last (count, ret, blk, max) =
    let one : or_zero (find_entry id t.failed_cycles) + 1 ≡ suc c = omega arith in
    let full : leb t.max_failed_cycles (suc c) ≡ true = ground arith in
    rw (fail_more n id (begin_cycle t), one, full)
      (rw find-remove (rw ==_refl (refl, retired_now id t.retired, ap (λ l. l ++ id ∷ []) blk)))

counts_on :
    (ns : List ℕ) (id : Uuid) (c : ℕ) (s t : SigmahqRegression)
    → c + length ns < s.max_failed_cycles
    → Counted id c s t
    → Counted id (c + length ns) s (failed_cycles_of ns id t)
counts_on [] id c s t below h = let e : c + 0 ≡ c = omega arith in rw e h
counts_on (n ∷ ns) id c s t below h =
    let e : c + suc (length ns) ≡ suc c + length ns = omega arith in
    rw e (
      counts_on ns id (suc c) s (fail n id (begin_cycle t)) (omega arith)
        (cycle_counts n id c s t (omega arith) h))

blocks_at :
    (ns : List ℕ) (id : Uuid) (c : ℕ) (s t : SigmahqRegression)
    → c + length ns ≡ s.max_failed_cycles
    → 1 ≤ length ns
    → Counted id c s t
    → Blocked id s (failed_cycles_of ns id t)
blocks_at [] id c s t all some_ h = absurd (omega arith)
blocks_at (n ∷ []) id c s t all some_ h = cycle_blocks n id c s t (omega arith) h
blocks_at (n ∷ m ∷ ns) id c s t all some_ h =
    blocks_at (m ∷ ns) id (suc c) s (fail n id (begin_cycle t)) (omega arith) (omega arith)
      (cycle_counts n id c s t (omega arith) h)

-- A rule that has not failed yet, behind some failed cycles, each with at least one failure: below
-- the bound it is counted once for each cycle, and neither retired nor blocked; at the bound it is
-- retired, its count is dropped, and it is the one rule that the next `take_blocked` adds.
pub failed_cycles_lem :
    (ns : List ℕ) (id : Uuid) (s : SigmahqRegression)
    → find_entry id s.failed_cycles ≡ none
    → 1 ≤ length ns
    → (length ns < s.max_failed_cycles → Counted id (length ns) s (failed_cycles_of ns id s))
      × (length ns ≡ s.max_failed_cycles → Blocked id s (failed_cycles_of ns id s))
failed_cycles_lem ns id s fresh some_ =
    let start : or_zero (find_entry id s.failed_cycles) ≡ 0 = ap or_zero fresh in
    (
      λ below.
          let e : 0 + length ns ≡ length ns = omega arith in
          rw e at (counts_on ns id 0 s s (omega arith) (start, refl, refl, refl)),
      λ at_. blocks_at ns id 0 s s (omega arith) some_ (start, refl, refl, refl),
    )
