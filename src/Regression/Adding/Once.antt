-- ===== src/Regression/Adding/Once.antt =====
-- Runs of `add` and `begin_cycle` of regression/mod.rs, for the rules whose files are handed out.
use sigmacatch.Regression.State.{
  PathBuf, SigmahqRegression, Uuid, begin_cycle, note_generation_failure, or_zero,
}
use sigmacatch.Regression.Generate.Store.{FilePath, Files}
use sigmacatch.Regression.Generate.{Alert, Calls, Platform, RegressionData, exists, generate}
use sigmacatch.Regression.Adding.{Added, Disk, Texts, add, add_to, finish, for_rule, add_below}
use sigmacatch.Prelude.{
  ==_refl, Bool, Bool-cases, List, Option, [], arith, false, find_entry, has, if◌then◌else◌, inl,
  inr, insert_key, leb, none, refl, some, true, ℕ, ◌+◌, ◌==◌, ◌||◌, ◌∷◌, ◌≡◌, ◌⊎◌,
}

has-insert_key : (i k : ℕ) (ks : List ℕ) → has i ks ≡ true → has i (insert_key k ks).0 ≡ true
has-insert_key i k ks h = elim (Bool-cases (has k ks)) [
  | inl t ↦ rw t h
  | inr f ↦ rw f (ground arith)
]

inserted : (k : ℕ) (ks : List ℕ) → has k (insert_key k ks).0 ≡ true
inserted k ks = elim (Bool-cases (has k ks)) [
  | inl t ↦ rw (t, t) refl
  | inr f ↦ rw f (rw ==_refl refl)
]

-- What the orchestrator calls.
pub data Call : Type 0 where
  cycle : Call
  alerted : Calls → Alert → Call

module _ (platform : Platform) (texts : Texts) where
  -- Some calls one behind another, and the rules whose files were returned, in order.
  abbrev pub handed : Option (List FilePath) → Uuid → List Uuid → List Uuid
  handed none id ids = ids
  handed (some files) id ids = id ∷ ids

  unfoldable pub run : List Call → SigmahqRegression → Disk → List Uuid
  unfolding add begin_cycle
  run [] s disk = []
  run (cycle ∷ calls) s disk = run calls (begin_cycle s) disk
  run (alerted c alert ∷ calls) s disk =
      let (result, s', disk') = add platform texts c alert s disk in
      handed result alert.rule_id (run calls s' disk')

  -- What a call of `add` promises: a rule that is retired gets no files and stays retired, and one
  -- that gets files is retired behind the call.
  abbrev Promise : SigmahqRegression → Uuid → Added platform texts → Type 0
  Promise s id (result, s', disk') =
      ((i : ℕ) → has i s.retired ≡ true → has i s'.retired ≡ true)
      × ((result ≡ none) ⊎ ((has id s.retired ≡ false) × (has id s'.retired ≡ true)))

  note-retired :
      (id : Uuid) (s : SigmahqRegression) (i : ℕ)
      → has i s.retired ≡ true
      → has i (note_generation_failure id s).retired ≡ true
  unfolding note_generation_failure
  note-retired id s i h = elim (Bool-cases (has id s.failed_this_cycle)) [
    | inl again ↦ simp again h
    | inr first ↦
        simp first
          (elim (Bool-cases
            (leb s.max_failed_cycles (or_zero (find_entry id s.failed_cycles) + 1))) [
              | inl full ↦ simp full (has-insert_key i id s.retired h)
              | inr below ↦ simp below h
            ])
  ]

  finish-Promise :
      (s : SigmahqRegression) (output : PathBuf) (alert : Alert) (d : RegressionData) (disk : Disk)
      (r : Bool × Files)
      → has alert.rule_id s.retired ≡ false
      → Promise s alert.rule_id (finish platform texts s output alert d disk r)
  finish-Promise s output alert d disk (false, fs) new =
      (λ i h. note-retired alert.rule_id s i h, inl refl)
  finish-Promise s output alert d disk (true, fs) new = (
    λ i h. has-insert_key i alert.rule_id s.retired h,
    inr (new, inserted alert.rule_id s.retired),
  )

  add_to-Promise :
      (c : Calls) (alert : Alert) (s : SigmahqRegression) (output : PathBuf) (disk : Disk)
      → Promise s alert.rule_id (add_to platform texts c alert s output disk)
  add_to-Promise c alert s output disk =
      choose (has alert.rule_id s.retired) (alert.rule_id == 0)
        (exists platform texts.print_uuid d disk.files) refl
    where
      d : RegressionData
      d = for_rule platform texts s output alert

      made : Added platform texts
      made =
          finish platform texts s output alert d disk
            (generate platform texts.print_uuid c d disk.files)

      choose :
          (a b e : Bool)
          → has alert.rule_id s.retired ≡ a
          → Promise s alert.rule_id
              (if a || b then (none, s, disk) else (if e then (none, s, disk) else made))
      choose true b e h = (λ i k. k, inl refl)
      choose false true e h = (λ i k. k, inl refl)
      choose false false true h = (λ i k. k, inl refl)
      choose false false false h =
          finish-Promise s output alert d disk (generate platform texts.print_uuid c d disk.files) h

  add_below-Promise :
      (c : Calls) (alert : Alert) (s : SigmahqRegression) (o : Option PathBuf) (disk : Disk)
      → Promise s alert.rule_id (add_below platform texts c alert s o disk)
  add_below-Promise c alert s none disk = (λ i k. k, inl refl)
  add_below-Promise c alert s (some output) disk = add_to-Promise c alert s output disk

  add-Promise :
      (c : Calls) (alert : Alert) (s : SigmahqRegression) (disk : Disk)
      → Promise s alert.rule_id (add platform texts c alert s disk)
  unfolding add
  add-Promise c alert s disk = add_below-Promise c alert s s.output_path disk

  -- No id stands in the list twice.
  abbrev pub AreDistinct : List Uuid → Type 0
  AreDistinct [] = Unit
  AreDistinct (id ∷ ids) = (has id ids ≡ false) × AreDistinct ids

  -- No id of the list is among those retired.
  abbrev pub AreNew : SigmahqRegression → List Uuid → Type 0
  AreNew s ids = (i : Uuid) → has i s.retired ≡ true → has i ids ≡ false

  handed_step :
      (s : SigmahqRegression) (id : Uuid) (r : Added platform texts) (ids : List Uuid)
      → Promise s id r
      → AreDistinct ids × AreNew r.1 ids
      → AreDistinct (handed r.0 id ids) × AreNew s (handed r.0 id ids)
  handed_step s id (none, s', disk') ids (kept, once) (h, new) = (h, λ i k. new i (kept i k))
  handed_step s id (some files, s', disk') ids (kept, inl impossible) (h, new) = absurd (cc)
  handed_step s id (some files, s', disk') ids (kept, inr (before, behind)) (h, new) =
      ((new id behind, h), λ i k. other i k (Bool-cases (id == i)))
    where
      other :
          (i : Uuid)
          → has i s.retired ≡ true
          → ((id == i) ≡ true) ⊎ ((id == i) ≡ false)
          → has i (id ∷ ids) ≡ false
      other i k (inl same) = let e : id ≡ i = ground arith in absurd (cc (rw e at before))
      other i k (inr differs) = rw differs (new i (kept i k))

  -- Whatever is called in whatever order, and whatever fails: the files of a rule are handed out at
  -- most once, and never those of a rule that was retired or blocked before.
  pub run-AreDistinct :
      (calls : List Call) (s : SigmahqRegression) (disk : Disk)
      → AreDistinct (run calls s disk) × AreNew s (run calls s disk)
  unfolding run begin_cycle
  run-AreDistinct [] s disk = (tt, λ i k. refl)
  run-AreDistinct (cycle ∷ calls) s disk = run-AreDistinct calls (begin_cycle s) disk
  run-AreDistinct (alerted c alert ∷ calls) s disk =
      let r = add platform texts c alert s disk in
      handed_step s alert.rule_id r (run calls r.1 r.2) (add-Promise c alert s disk)
        (run-AreDistinct calls r.1 r.2)
