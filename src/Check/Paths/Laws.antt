-- ===== src/Check/Paths/Laws.antt =====
-- When the checks of the paths find nothing.
use sigmacatch.Check.Paths.{
  Attribute, absent, not_text, declared, TestError, pipeline_not_found, filter_not_found, Entry,
  PathValidation, Tree, against_rule, has_path, Disk, TestInfo, against_entries, check_entries,
  check_rules, data_errors, files_of, is_zero_len, missing_files, resolve_upstream_relative,
  test_errors, validate_declared_tests, validate_regression_paths,
}
use sigmacatch.Prelude.{
  All, Bool-cases, List, Option, Option-cases, String, [], arith, eq_iff, false, inl, inr, none,
  refl, some, str_eq, true, ℕ, ◌++◌, ◌+◌, ◌↔◌, ◌∷◌, ◌≡◌,
}

abbrev pub NothingWrong : PathValidation → Type 0
NothingWrong v = (v.missing_path ≡ 0) × (v.mismatched_path ≡ 0)

module _ (tree : Tree) where
  -- The rule of an entry is there, and declares the path of the entry.
  abbrev pub Declares : Entry → Option Attribute → Type 0
  Declares e none = ⊥
  Declares e (some absent) = ⊥
  Declares e (some not_text) = ⊥
  Declares e (some (declared rtp)) = e.info_path ≡ tree.join_root rtp

  -- A path that a rule declares is there, and is the path of an entry.
  abbrev pub HasEntry : List Entry → Attribute → Type 0
  HasEntry es absent = Unit
  HasEntry es not_text = Unit
  HasEntry es (declared rtp) =
      (tree.exists (tree.join_root rtp) ≡ true) × (has_path tree (tree.join_root rtp) es ≡ true)

  against_rule-Declares :
      (e : Entry) (a : Option Attribute) (v : PathValidation)
      → NothingWrong (against_rule tree e a v) ↔ (NothingWrong v × Declares e a)
  against_rule-Declares e none v = ((λ h. absurd (omega arith)), (λ h. absurd (h.1)))
  against_rule-Declares e (some absent) v = ((λ h. absurd (omega arith)), (λ h. absurd (h.1)))
  against_rule-Declares e (some not_text) v = ((λ h. absurd (omega arith)), (λ h. absurd (h.1)))
  against_rule-Declares e (some (declared rtp)) v =
      let same = eq_iff e.info_path (tree.join_root rtp) in
      elim (Bool-cases (str_eq e.info_path (tree.join_root rtp))) [
        | inl t ↦ rw t ((λ h. (h, same.0 t)), (λ h. h.0))
        | inr f ↦ rw f ((λ h. absurd (omega arith)), (λ h. absurd (cc (same.1 (h.1)))))
      ]

  against_entries-HasEntry :
      (es : List Entry) (a : Attribute) (v : PathValidation)
      → NothingWrong (against_entries tree es a v) ↔ (NothingWrong v × HasEntry es a)
  against_entries-HasEntry es absent v = ((λ h. (h, tt)), (λ h. h.0))
  against_entries-HasEntry es not_text v = ((λ h. (h, tt)), (λ h. h.0))
  against_entries-HasEntry es (declared rtp) v =
      let p = tree.join_root rtp in
      elim (Bool-cases (tree.exists p)) [
        | inr f ↦ rw f ((λ h. absurd (omega arith)), (λ h. absurd (cc (h.1.0))))
        | inl t ↦ elim (Bool-cases (has_path tree p es)) [
          | inl u ↦ rw (t, u) ((λ h. (h, (refl, refl))), (λ h. h.0))
          | inr g ↦ rw (t, g) ((λ h. absurd (omega arith)), (λ h. absurd (cc (h.1.1))))
        ]
      ]

  check_entries-Declares :
      (es : List Entry) (v : PathValidation)
      → NothingWrong (check_entries tree es v)
        ↔ (NothingWrong v × All (λ e. Declares e (tree.get e.rule_id)) es)
  unfolding check_entries
  check_entries-Declares [] v = ((λ h. (h, tt)), (λ h. h.0))
  check_entries-Declares (e ∷ es) v =
      let rest = check_entries-Declares es (against_rule tree e (tree.get e.rule_id) v) in
      let here = against_rule-Declares e (tree.get e.rule_id) v in
      (
        (λ h. let both = rest.0 h in let one = here.0 (both.0) in (one.0, (one.1, both.1))),
        (λ h. rest.1 (here.1 (h.0, h.1.0), h.1.1)),
      )

  check_rules-HasEntry :
      (es : List Entry) (as' : List Attribute) (v : PathValidation)
      → NothingWrong (check_rules tree es as' v) ↔ (NothingWrong v × All (HasEntry es) as')
  unfolding check_rules
  check_rules-HasEntry es [] v = ((λ h. (h, tt)), (λ h. h.0))
  check_rules-HasEntry es (a ∷ as') v =
      let rest = check_rules-HasEntry es as' (against_entries tree es a v) in
      let here = against_entries-HasEntry es a v in
      (
        (λ h. let both = rest.0 h in let one = here.0 (both.0) in (one.0, (one.1, both.1))),
        (λ h. rest.1 (here.1 (h.0, h.1.0), h.1.1)),
      )

  -- The check of the paths counts nothing exactly when each entry's rule is there and declares the
  -- path of the entry, and each path that a rule declares is there and is that of an entry.
  pub validate_regression_paths-NothingWrong :
      (es : List Entry)
      → NothingWrong (validate_regression_paths tree es)
        ↔ (All (λ e. Declares e (tree.get e.rule_id)) es × All (HasEntry es) tree.attributes)
  unfolding validate_regression_paths
  validate_regression_paths-NothingWrong es =
      let start : PathValidation = record { missing_path = 0; mismatched_path = 0 } in
      let entries = check_entries-Declares es start in
      let rules = check_rules-HasEntry es tree.attributes (check_entries tree es start) in
      (
        (λ h. let both = rules.0 h in ((entries.0 (both.0)).1, both.1)),
        (λ h. rules.1 (entries.1 ((refl, refl), h.0), h.1)),
      )

module _ (disk : Disk) where
  -- A file of a kind is found on the way up.
  abbrev pub Resolves : String → Type 0
  Resolves f = (p : String) × (resolve_upstream_relative disk f ≡ some p)

  abbrev pub IsSound : TestInfo → Type 0
  IsSound t =
      (disk.exists (disk.join disk.root t.path) ≡ true)
      × (is_zero_len disk (disk.file_len (disk.join disk.root t.path)) ≡ false)
      × All Resolves (files_of disk t.pipelines)
      × All Resolves (files_of disk t.filters)

  append_nil : (es fs : List TestError) → (es ++ fs ≡ []) ↔ ((es ≡ []) × (fs ≡ []))
  append_nil [] fs = ((λ h. (refl, h)), (λ h. h.1))
  append_nil (e ∷ es) fs = ((λ h. absurd (cc)), (λ h. absurd (cc (h.0))))

  missing_files-Resolves :
      (error : ℕ → TestError) (j : ℕ) (fs : List String)
      → (missing_files disk error j fs ≡ []) ↔ All Resolves fs
  unfolding missing_files
  missing_files-Resolves error j [] = ((λ h. tt), (λ h. refl))
  missing_files-Resolves error j (f ∷ fs) =
      let rest = missing_files-Resolves error (j + 1) fs in
      elim (Option-cases (resolve_upstream_relative disk f)) [
        | inl e ↦ ((λ h. absurd (cc (rw e at h))), (λ h. absurd (cc (e, h.0.1))))
        | inr (p, e) ↦ ((λ h. ((p, e), rest.0 (rw e at h))), (λ h. rw e (rest.1 (h.1))))
      ]

  data_errors-none :
      (i : ℕ) (p : String)
      → (data_errors disk i p ≡ [])
        ↔ ((disk.exists p ≡ true) × (is_zero_len disk (disk.file_len p) ≡ false))
  data_errors-none i p = elim (Bool-cases (disk.exists p)) [
    | inr f ↦ rw f ((λ h. absurd (cc)), (λ h. absurd (cc (h.0))))
    | inl t ↦ elim (Bool-cases (is_zero_len disk (disk.file_len p))) [
      | inl u ↦ rw (t, u) ((λ h. absurd (cc)), (λ h. absurd (cc (h.1))))
      | inr g ↦ rw (t, g) ((λ h. (refl, refl)), (λ h. refl))
    ]
  ]

  -- The declared tests have no error exactly when each test's data is there and not empty, and each
  -- of its pipelines and filters is found on the way up from the root.
  pub validate_declared_tests-IsSound :
      (i : ℕ) (ts : List TestInfo) → (validate_declared_tests disk i ts ≡ []) ↔ All IsSound ts
  unfolding validate_declared_tests
  validate_declared_tests-IsSound i [] = ((λ h. tt), (λ h. refl))
  validate_declared_tests-IsSound i (t ∷ ts) =
      let p = disk.join disk.root t.path in
      let pipes = missing_files disk (pipeline_not_found i) 0 (files_of disk t.pipelines) in
      let filts = missing_files disk (filter_not_found i) 0 (files_of disk t.filters) in
      let rest = validate_declared_tests-IsSound (i + 1) ts in
      let split = append_nil (test_errors disk i t) (validate_declared_tests disk (i + 1) ts) in
      let split_data = append_nil (data_errors disk i p) (pipes ++ filts) in
      let split_files = append_nil pipes filts in
      let file = data_errors-none i p in
      let pipelines = missing_files-Resolves (pipeline_not_found i) 0 (files_of disk t.pipelines) in
      let filters = missing_files-Resolves (filter_not_found i) 0 (files_of disk t.filters) in
      (
        (λ h.
            let here = split_data.0 ((split.0 h).0) in
            let files = split_files.0 (here.1) in
            let found = file.0 (here.0) in
            (
              (found.0, found.1, pipelines.0 (files.0), filters.0 (files.1)),
              rest.0 ((split.0 h).1),
            )),
        (λ h.
            let (there, filled, ps, fs) = h.0 in
            split.1 (
              split_data.1 (file.1 (there, filled), split_files.1 (pipelines.1 ps, filters.1 fs)),
              rest.1 (h.1),
            )),
      )
