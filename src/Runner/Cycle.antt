-- ===== src/Runner/Cycle.antt =====
-- A cycle of the runner: the rule set and the engine behind it.
use sigmacatch.Rules.{Platform, SigmahqRules, Uuid}
use sigmacatch.Rules.Lookup.{get_rule, remove_id, remove_id_lem, find_rule}
use sigmacatch.Runner.{
  Batches, reloaded, Parts, Pipeline, add_all, generate_batches, ids_of, process_and_generate,
  remove_all, with_alerts,
}
use sigmacatch.Prelude.{
  All, Bool-cases, List, [], ap, eq_iff, inl, inr, none, refl, str_eq, sym, ◌++◌, ◌∙◌, ◌∷◌, ◌≡◌,
  ◌⊎◌,
}

module _ (platform : Platform) where
  open platform use {print_uuid}

  gone_stays :
      (set : SigmahqRules) (j id : Uuid)
      → get_rule platform set id ≡ none
      → get_rule platform (remove_id platform set j).0 id ≡ none
  unfolding get_rule
  gone_stays set j id h =
      let (gone, _, _, others) = remove_id_lem platform set j in
      elim (Bool-cases (str_eq (print_uuid j) (print_uuid id))) [
        | inl same ↦
            let e : print_uuid j ≡ print_uuid id = (eq_iff (print_uuid j) (print_uuid id)).0 same in
            ap (λ t. find_rule platform t (remove_id platform set j).0.rules) (sym e) ∙ gone
        | inr other ↦ others id other ∙ h
      ]

module _ (platform : Platform) (parts : Parts) where
  open platform use {print_uuid}
  open parts use {get_alerts, process_events, begin_cycle, take_blocked}

  remove_all-gone :
      (ids : List Uuid) (set : SigmahqRules) (id : Uuid)
      → get_rule platform set id ≡ none
      → get_rule platform (remove_all platform parts ids set) id ≡ none
  unfolding remove_all
  remove_all-gone [] set id h = h
  remove_all-gone (j ∷ ids) set id h =
      remove_all-gone ids (remove_id platform set j).0 id (gone_stays platform set j id h)

  remove_all-All :
      (ids : List Uuid) (set : SigmahqRules)
      → All (λ id. get_rule platform (remove_all platform parts ids set) id ≡ none) ids
  unfolding remove_all
  remove_all-All [] set = tt
  remove_all-All (id ∷ ids) set =
      let set' = (remove_id platform set id).0 in
      (remove_all-gone ids set' id (remove_id_lem platform set id).0, remove_all-All ids set')

  All-left : (P : Uuid → Type 0) (xs ys : List Uuid) → All P (xs ++ ys) → All P xs × All P ys
  All-left P [] ys h = (tt, h)
  All-left P (x ∷ xs) ys (p, h) = let (l, r) = All-left P xs ys h in ((p, l), r)

  -- Ids without a rule in the set of a pipeline.
  abbrev pub AreGone : List Uuid → Pipeline platform parts → Type 0
  AreGone ids p = All (λ id. get_rule platform p.rules id ≡ none) ids

  -- The engine goes with the rule set: it was loaded again with what is left of it, or no rule was
  -- taken out and no batch was made.
  abbrev pub InStep :
      parts.Engine
      → Pipeline platform parts
      → Pipeline platform parts
      → Batches platform parts
      → Type 0
  InStep e p p' batches =
      (p'.engine ≡ parts.reload_rules e p'.rules)
      ⊎ ((batches ≡ []) × (p'.rules ≡ p.rules) × (p'.engine ≡ e))

  reloaded_with :
      (e : parts.Engine) (p : Pipeline platform parts) (r : parts.Regression)
      (batches : Batches platform parts) (blocked : List Uuid)
      → (let retired = ids_of platform parts batches ++ blocked in
          let rules = remove_all platform parts retired p.rules in
          InStep e p
            (record {
              engine = reloaded platform parts retired e rules;
              rules = rules;
              regression = r;
            })
            batches)
  unfolding remove_all
  reloaded_with e p r [] [] = inr (refl, refl, refl)
  reloaded_with e p r [] (id ∷ ids) = inl refl
  reloaded_with e p r ((id, files) ∷ bs) blocked = inl refl

  -- What a cycle leaves: the rules of its batches are gone, and the engine is in step.
  abbrev pub IsSettled :
      parts.Engine
      → Pipeline platform parts
      → Pipeline platform parts
      → Batches platform parts
      → Type 0
  IsSettled e p p' batches = AreGone (ids_of platform parts batches) p' × InStep e p p' batches

  generate_batches-IsSettled :
      (e : parts.Engine) (alerts : List parts.Alert) (p : Pipeline platform parts)
      → (let (p', batches) = generate_batches platform parts e alerts p in IsSettled e p p' batches)
  generate_batches-IsSettled e alerts p =
      let (batches, r) = add_all platform parts alerts (begin_cycle p.regression) in
      let (blocked, r') = take_blocked r in
      let retired = ids_of platform parts batches ++ blocked in
      (
        (All-left (λ id. get_rule platform (remove_all platform parts retired p.rules) id ≡ none)
            (ids_of platform parts batches) blocked (remove_all-All retired p.rules)).0,
        reloaded_with e p r' batches blocked,
      )

  with_alerts-IsSettled :
      (alerts : List parts.Alert) (e : parts.Engine) (p : Pipeline platform parts)
      → (let (p', batches) = with_alerts platform parts alerts e p in IsSettled e p p' batches)
  with_alerts-IsSettled [] e p = (tt, inr (refl, refl, refl))
  with_alerts-IsSettled (a ∷ more) e p = generate_batches-IsSettled e (a ∷ more) p

  -- Behind a cycle, no rule of the set has the id of a batch, and the engine, behind its processing of
  -- the events, was loaded again with the rules that are left; it keeps its rules only if there is no
  -- batch and the rule set is unchanged.
  pub process_and_generate-IsSettled :
      (p : Pipeline platform parts)
      → (let (p', batches) = process_and_generate platform parts p in
          IsSettled (get_alerts (process_events p.engine)).1 p p' batches)
  unfolding process_and_generate
  process_and_generate-IsSettled p =
      let (alerts, e) = get_alerts (process_events p.engine) in with_alerts-IsSettled alerts e p
