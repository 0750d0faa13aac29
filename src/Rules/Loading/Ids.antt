-- ===== src/Rules/Loading/Ids.antt =====
-- The ids of a rule set that was loaded.
use sigmacatch.Rules.{SigmaRule, PathBuf, Platform, SigmahqRules}
use sigmacatch.Rules.Loading.{
  folders_in, loaded, folder, no_folder, unreadable, no_nodes, node, is_file, is_dir, is_other,
  failed, parsed, seen, Folder, Loading, Nodes, Parsed, add_rule, errors_in, finish, id_or,
  load_content, load_dirs, load_file, load_nodes, load_parsed, load_pending, load_rule, load_rules,
  new_from_path, nothing_loaded, then_load, wanted, count_timeframe,
}
use sigmacatch.Prelude.{
  All, All-append, Bool, Bool-cases, List, Option, Option-cases, String, [], ap, append-nil, arith,
  eq_iff, false, inl, inr, none, refl, some, str_eq, suc, true, zero, ℕ, ◌++◌, ◌+◌, ◌||◌, ◌∙◌, ◌∷◌,
  ◌≡◌,
}

abbrev id_into : Option String → List String → List String
id_into none is = is
id_into (some id) is = id ∷ is

-- The ids that some rules declare.
abbrev pub ids : List SigmaRule → List String
ids [] = []
ids (rule ∷ rules) = id_into rule.id (ids rules)

-- No text stands in the list twice.
abbrev pub AreDistinct : List String → Type 0
AreDistinct [] = Unit
AreDistinct (id ∷ is) = (seen id is ≡ false) × AreDistinct is

abbrev AllSeen : List String → List String → Type 0
AllSeen all is = All (λ id. seen id all ≡ true) is

seen-AllSeen :
    (all is : List String) (id : String) → AllSeen all is → seen id all ≡ false → seen id is ≡ false
seen-AllSeen all [] id h n = refl
seen-AllSeen all (i ∷ is) id (h, hs) n = ground (arith, eq_iff i id, seen-AllSeen all is id hs n)

AllSeen-grow : (all is : List String) (id : String) → AllSeen all is → AllSeen (id ∷ all) is
AllSeen-grow all [] id h = tt
AllSeen-grow all (i ∷ is) id (h, hs) = (ground (arith, eq_iff id i), AllSeen-grow all is id hs)

seen-append :
    (id j : String) (is : List String) → seen id (is ++ j ∷ []) ≡ (seen id is || str_eq j id)
seen-append id j [] = ground arith
seen-append id j (i ∷ is) = ground (arith, seen-append id j is)

AreDistinct-append :
    (is : List String) (j : String)
    → AreDistinct is
    → seen j is ≡ false
    → AreDistinct (is ++ j ∷ [])
AreDistinct-append [] j h n = (refl, tt)
AreDistinct-append (i ∷ is) j (h, hs) n = (
  rw seen-append (ground (arith, eq_iff i j, eq_iff j i)),
  AreDistinct-append is j hs (ground arith),
)

id_into-append :
    (o : Option String) (is js : List String) → id_into o (is ++ js) ≡ id_into o is ++ js
id_into-append none is js = refl
id_into-append (some id) is js = refl

ids-append :
    (rules : List SigmaRule) (rule : SigmaRule)
    → ids (rules ++ rule ∷ []) ≡ ids rules ++ id_into rule.id []
ids-append [] rule = refl
ids-append (r ∷ rules) rule =
    ap (id_into r.id) (ids-append rules rule) ∙ id_into-append r.id (ids rules) (id_into rule.id [])

module _ (platform : Platform) (parse_sigma_yaml : String → Parsed) (no_id : PathBuf → String) where
  -- The invariant of the loops: the declared ids are distinct, and all of them were seen.
  abbrev Inv : Loading → Type 0
  Inv s = AreDistinct (ids s.rules) × AllSeen s.seen_ids (ids s.rules)

  push_id :
      (all is : List String) (o : Option String) (path : PathBuf)
      → AreDistinct is × AllSeen all is
      → seen (id_or platform parse_sigma_yaml no_id o path) all ≡ false
      → AreDistinct (is ++ id_into o [])
        × AllSeen (id_or platform parse_sigma_yaml no_id o path ∷ all) (is ++ id_into o [])
  push_id all is none path (h, k) new = rw append-nil (h, AllSeen-grow all is (no_id path) k)
  push_id all is (some id) path (h, k) new = (
    AreDistinct-append is id h (seen-AllSeen all is id k new),
    All-append (λ i. seen i (id ∷ all) ≡ true) is (id ∷ []) (AllSeen-grow all is id k)
        (ground (arith, eq_iff id id), tt),
  )

  add_rule-Inv :
      (path : PathBuf) (rule : SigmaRule) (s : Loading)
      → Inv s
      → Inv (add_rule platform parse_sigma_yaml no_id path rule s)
  add_rule-Inv path rule s h =
      elim (Bool-cases (seen (id_or platform parse_sigma_yaml no_id rule.id path) s.seen_ids)) [
        | inl dupe ↦ rw dupe h
        | inr new ↦
            rw (new, ids-append s.rules rule) (push_id s.seen_ids (ids s.rules) rule.id path h new)
      ]

  count_timeframe-Inv :
      (b : Bool) (s : Loading) → Inv s → Inv (count_timeframe platform parse_sigma_yaml no_id b s)
  count_timeframe-Inv true s h = h
  count_timeframe-Inv false s h = h

  load_rules-Inv :
      (path : PathBuf) (rules : List SigmaRule) (s : Loading)
      → Inv s
      → Inv (load_rules platform parse_sigma_yaml no_id path rules s)
  unfolding load_rules load_rule
  load_rules-Inv path [] s h = h
  load_rules-Inv path (rule ∷ rules) s h =
      load_rules-Inv path rules (load_rule platform parse_sigma_yaml no_id path rule s) (
        add_rule-Inv path rule (count_timeframe platform parse_sigma_yaml no_id rule.timeframe s)
          (count_timeframe-Inv rule.timeframe s h))

  load_content-Inv :
      (path : PathBuf) (o : Option String) (s : Loading)
      → Inv s
      → Inv (load_content platform parse_sigma_yaml no_id path o s)
  unfolding load_parsed
  load_content-Inv path none s h = h
  load_content-Inv path (some content) s h = load_parsed-Inv (parse_sigma_yaml content)
    where
      load_parsed-Inv : (p : Parsed) → Inv (load_parsed platform parse_sigma_yaml no_id path p s)
      load_parsed-Inv failed = h
      load_parsed-Inv (parsed ds rules) =
          load_rules-Inv path rules
            (record s {
              skipped_parse_errors =
                  s.skipped_parse_errors + errors_in platform parse_sigma_yaml no_id ds;
            })
            h

  load_nodes-Inv :
      (ns : Nodes) (pending : List Folder) (s : Loading)
      → Inv s
      → Inv (load_nodes platform parse_sigma_yaml no_id ns pending s).1
  unfolding load_nodes load_file
  load_nodes-Inv no_nodes pending s h = h
  load_nodes-Inv (node (is_file f) ns) pending s h =
      load_nodes-Inv ns pending (load_file platform parse_sigma_yaml no_id f s)
        (load_content-Inv f.path (wanted platform parse_sigma_yaml no_id f) s h)
  load_nodes-Inv (node (is_dir d) ns) pending s h = load_nodes-Inv ns (d ∷ pending) s h
  load_nodes-Inv (node is_other ns) pending s h = load_nodes-Inv ns pending s h

  -- The invariant of a result, if there is one.
  abbrev Holds : Option Loading → Type 0
  Holds none = Unit
  Holds (some s) = Inv s

  load_pending-Inv :
      (fuel : ℕ) (pending : List Folder) (s : Loading)
      → Inv s
      → Holds (load_pending platform parse_sigma_yaml no_id fuel pending s)
  unfolding load_pending
  load_pending-Inv zero pending s h = h
  load_pending-Inv (suc fuel) [] s h = h
  load_pending-Inv (suc fuel) (no_folder ∷ ds) s h = load_pending-Inv fuel ds s h
  load_pending-Inv (suc fuel) (unreadable ∷ ds) s h = tt
  load_pending-Inv (suc fuel) (folder ns ∷ ds) s h =
      let (pending, s') = load_nodes platform parse_sigma_yaml no_id ns ds s in
      load_pending-Inv fuel pending s' (load_nodes-Inv ns ds s h)

  then_load-Holds :
      (o : Option Loading) (k : Loading → Option Loading)
      → Holds o
      → ((s : Loading) → Inv s → Holds (k s))
      → Holds (then_load platform parse_sigma_yaml no_id o k)
  then_load-Holds none k h all = tt
  then_load-Holds (some s) k h all = all s h

  load_dirs-Inv :
      (dirs : List Folder) (s : Loading)
      → Inv s
      → Holds (load_dirs platform parse_sigma_yaml no_id dirs s)
  unfolding load_dirs
  load_dirs-Inv [] s h = h
  load_dirs-Inv (dir ∷ dirs) s h =
      then_load-Holds
        (load_pending platform parse_sigma_yaml no_id
          (folders_in platform parse_sigma_yaml no_id dir) (dir ∷ []) s)
        (λ s'. load_dirs platform parse_sigma_yaml no_id dirs s')
        (load_pending-Inv (folders_in platform parse_sigma_yaml no_id dir) (dir ∷ []) s h)
        (λ s'. load_dirs-Inv dirs s')

  -- Whatever the files hold, no two loaded rules declare the same id.
  pub new_from_path-AreDistinct :
      (dirs : List Folder) (set : SigmahqRules)
      → new_from_path platform parse_sigma_yaml no_id dirs ≡ loaded set
      → AreDistinct (ids set.rules)
  unfolding new_from_path
  new_from_path-AreDistinct [] set e = absurd (cc)
  new_from_path-AreDistinct (dir ∷ dirs) set e =
      elim (Option-cases (
        load_dirs platform parse_sigma_yaml no_id (dir ∷ dirs)
          (nothing_loaded platform parse_sigma_yaml no_id))) [
            | inl err ↦ absurd (cc (rw err at e))
            | inr (s, ok) ↦
                let h =
                  load_dirs-Inv (dir ∷ dirs) (nothing_loaded platform parse_sigma_yaml no_id)
                    (tt, tt) in
                let same : finish platform parse_sigma_yaml no_id s ≡ set = cc (rw ok at e) in
                rw (← same) ((rw ok at h).0)
          ]
