-- ===== src/Rules/Loading/Counts.antt =====
-- The counters of a rule set that was loaded, against the tree of files.
use sigmacatch.Rules.{PathBuf, Platform, SigmaRule}
use sigmacatch.Rules.Loading.{
  folders_in, folders_below, is_file, is_dir, is_other, no_folder, unreadable, folder, no_nodes,
  node, failed, parsed, File, Folder, Loading, Nodes, Parsed, load_dirs, load_file, load_nodes,
  load_parsed, load_pending, wanted, load_content, add_rule, errors_in, id_or, load_rule,
  load_rules, nothing_loaded, seen, count_timeframe,
}
use sigmacatch.Prelude.{
  Bool, Bool-cases, List, Option, Option-cases, String, [], arith, false, if◌then◌else◌, inl, inr,
  keep, length, length-append, none, refl, some, suc, true, zero, ℕ, ◌+◌, ◌∙◌, ◌∷◌, ◌≡◌, ◌≤◌,
}

module _ (platform : Platform) (parse_sigma_yaml : String → Parsed) (no_id : PathBuf → String) where
  -- What a file adds to a counter, given what its text parses to.
  abbrev of_wanted : (Parsed → ℕ) → Option String → ℕ
  of_wanted share none = 0
  of_wanted share (some content) = share (parse_sigma_yaml content)

  abbrev of_file : (Parsed → ℕ) → File → ℕ
  of_file share f = of_wanted share (wanted platform parse_sigma_yaml no_id f)

  -- The sum of these over the files of a folder.
  mutual
    pub total : (Parsed → ℕ) → Folder → ℕ
    total share no_folder = 0
    total share unreadable = 0
    total share (folder ns) = total_below share ns

    pub total_below : (Parsed → ℕ) → Nodes → ℕ
    total_below share no_nodes = 0
    total_below share (node (is_file f) ns) = of_file share f + total_below share ns
    total_below share (node (is_dir d) ns) = total share d + total_below share ns
    total_below share (node is_other ns) = total_below share ns

  abbrev pub totals : (Parsed → ℕ) → List Folder → ℕ
  totals share [] = 0
  totals share (d ∷ ds) = total share d + totals share ds

  abbrev folders_of : List Folder → ℕ
  folders_of [] = 0
  folders_of (d ∷ ds) = folders_in platform parse_sigma_yaml no_id d + folders_of ds

  -- A counter to which each text adds its share.
  abbrev Adds : (Parsed → ℕ) → (Loading → ℕ) → Type 0
  Adds share counter =
      (path : PathBuf) (p : Parsed) (s : Loading)
      → counter (load_parsed platform parse_sigma_yaml no_id path p s) ≡ share p + counter s

  folders_in-pos : (d : Folder) → 1 ≤ folders_in platform parse_sigma_yaml no_id d
  unfolding folders_in
  folders_in-pos no_folder = omega arith
  folders_in-pos unreadable = omega arith
  folders_in-pos (folder ns) = omega arith

  some-injective : {a b : Loading} → some a ≡ some b → b ≡ a
  some-injective e = cc

  module _ (share : Parsed → ℕ) (counter : Loading → ℕ) (adds : Adds share counter) where
    load_content-adds :
        (path : PathBuf) (o : Option String) (s : Loading)
        → counter (load_content platform parse_sigma_yaml no_id path o s)
          ≡ of_wanted share o + counter s
    load_content-adds path none s = omega arith
    load_content-adds path (some content) s = adds path (parse_sigma_yaml content) s

    load_file-adds :
        (f : File) (s : Loading)
        → counter (load_file platform parse_sigma_yaml no_id f s) ≡ of_file share f + counter s
    unfolding load_file
    load_file-adds f s = load_content-adds f.path (wanted platform parse_sigma_yaml no_id f) s

    load_nodes-adds :
        (ns : Nodes) (pending : List Folder) (s : Loading)
        → (let (pending', s') = load_nodes platform parse_sigma_yaml no_id ns pending s in
            (counter s' + totals share pending'
              ≡ total_below share ns + (totals share pending + counter s))
            × (folders_of pending'
                ≡ folders_below platform parse_sigma_yaml no_id ns + folders_of pending))
    unfolding load_nodes folders_in folders_below total total_below
    load_nodes-adds no_nodes pending s = (omega arith, omega arith)
    load_nodes-adds (node (is_file f) ns) pending s =
        let (c, d) = load_nodes-adds ns pending (load_file platform parse_sigma_yaml no_id f s) in
        let one = load_file-adds f s in (omega arith, d)
    load_nodes-adds (node (is_dir d) ns) pending s =
        let (c, e) = load_nodes-adds ns (d ∷ pending) s in (omega arith, omega arith)
    load_nodes-adds (node is_other ns) pending s = load_nodes-adds ns pending s

    load_pending-adds :
        (fuel : ℕ) (pending : List Folder) (s s' : Loading)
        → folders_of pending ≤ fuel
        → load_pending platform parse_sigma_yaml no_id fuel pending s ≡ some s'
        → counter s' ≡ totals share pending + counter s
    unfolding load_pending folders_in total
    load_pending-adds zero [] s s' enough e = rw (some-injective e) (omega arith)
    load_pending-adds (suc fuel) [] s s' enough e = rw (some-injective e) (omega arith)
    load_pending-adds zero (d ∷ ds) s s' enough e = absurd (omega (arith, folders_in-pos d))
    load_pending-adds (suc fuel) (no_folder ∷ ds) s s' enough e =
        let rest = load_pending-adds fuel ds s s' (omega arith) e in omega arith
    load_pending-adds (suc fuel) (unreadable ∷ ds) s s' enough e = absurd (cc)
    load_pending-adds (suc fuel) (folder ns ∷ ds) s s' enough e =
        let (pending, s1) = load_nodes platform parse_sigma_yaml no_id ns ds s in
        let (sum, left) = load_nodes-adds ns ds s in
        let rest = load_pending-adds fuel pending s1 s' (omega arith) e in omega arith

    -- Where no directory fails to be read, a counter ends at the sum over all files.
    pub load_dirs-adds :
        (dirs : List Folder) (s s' : Loading)
        → load_dirs platform parse_sigma_yaml no_id dirs s ≡ some s'
        → counter s' ≡ totals share dirs + counter s
    unfolding load_dirs
    load_dirs-adds [] s s' e = rw (some-injective e) (omega arith)
    load_dirs-adds (dir ∷ dirs) s s' e =
        let one =
          load_pending platform parse_sigma_yaml no_id
            (folders_in platform parse_sigma_yaml no_id dir) (dir ∷ []) s in
        elim (Option-cases one) [
          | inl err ↦ absurd (cc (rw err at e))
          | inr (s1, ok) ↦
              let first =
                load_pending-adds (folders_in platform parse_sigma_yaml no_id dir) (dir ∷ []) s s1
                  (omega arith) ok in
              let rest = load_dirs-adds dirs s1 s' (rw ok at e) in omega arith
        ]

  abbrev pub rules_share : Parsed → ℕ
  rules_share failed = 0
  rules_share (parsed ds rules) = length rules

  abbrev pub errors_share : Parsed → ℕ
  errors_share failed = 1
  errors_share (parsed ds rules) = errors_in platform parse_sigma_yaml no_id ds

  abbrev timeframes : List SigmaRule → ℕ
  timeframes rules = length (keep (λ rule. rule.timeframe) rules)

  abbrev pub timeframes_share : Parsed → ℕ
  timeframes_share failed = 0
  timeframes_share (parsed ds rules) = timeframes rules

  -- What some rules do to the three counters.
  abbrev Rounds : List SigmaRule → Loading → Loading → Type 0
  Rounds rules s s' =
      (length s'.rules + s'.skipped_dupes ≡ length rules + (length s.rules + s.skipped_dupes))
      × (s'.skipped_parse_errors ≡ s.skipped_parse_errors)
      × (s'.skipped_timeframes ≡ timeframes rules + s.skipped_timeframes)

  add_rule-Rounds :
      (path : PathBuf) (rule : SigmaRule) (s : Loading)
      → (let s' = add_rule platform parse_sigma_yaml no_id path rule s in
          (length s'.rules + s'.skipped_dupes ≡ suc (length s.rules + s.skipped_dupes))
          × (s'.skipped_parse_errors ≡ s.skipped_parse_errors)
          × (s'.skipped_timeframes ≡ s.skipped_timeframes))
  add_rule-Rounds path rule s =
      elim (Bool-cases (seen (id_or platform parse_sigma_yaml no_id rule.id path) s.seen_ids)) [
        | inl dupe ↦ rw dupe (omega arith, refl, refl)
        | inr new ↦ rw new (omega (arith, length-append {0} s.rules (rule ∷ [])), refl, refl)
      ]

  count_timeframe-Rounds :
      (rules : List SigmaRule) (rule : SigmaRule) (b : Bool) (s : Loading)
      → (let s' = count_timeframe platform parse_sigma_yaml no_id b s in
          (length s'.rules + s'.skipped_dupes ≡ length s.rules + s.skipped_dupes)
          × (s'.skipped_parse_errors ≡ s.skipped_parse_errors)
          × (timeframes rules + s'.skipped_timeframes
              ≡ length (
                  if b then rule ∷ keep (λ r. r.timeframe) rules else keep (λ r. r.timeframe) rules)
                + s.skipped_timeframes))
  count_timeframe-Rounds rules rule true s = (refl, refl, omega arith)
  count_timeframe-Rounds rules rule false s = (refl, refl, refl)

  load_rules-Rounds :
      (path : PathBuf) (rules : List SigmaRule) (s : Loading)
      → Rounds rules s (load_rules platform parse_sigma_yaml no_id path rules s)
  unfolding load_rules load_rule
  load_rules-Rounds path [] s = (omega arith, refl, omega arith)
  load_rules-Rounds path (rule ∷ rules) s =
      let s' = count_timeframe platform parse_sigma_yaml no_id rule.timeframe s in
      let rest =
        load_rules-Rounds path rules (add_rule platform parse_sigma_yaml no_id path rule s') in
      let one = add_rule-Rounds path rule s' in
      let frame = count_timeframe-Rounds rules rule rule.timeframe s in
      (omega arith, rest.1 ∙ (one.1 ∙ frame.1), omega arith)

  Adds-rules : Adds rules_share (λ t. length t.rules + t.skipped_dupes)
  unfolding load_parsed
  Adds-rules path failed t = omega arith
  Adds-rules path (parsed ds rules) t =
      (load_rules-Rounds path rules (record t {
        skipped_parse_errors =
            t.skipped_parse_errors + errors_in platform parse_sigma_yaml no_id ds;
      })).0

  Adds-errors : Adds errors_share (λ t. t.skipped_parse_errors)
  unfolding load_parsed
  Adds-errors path failed t = omega arith
  Adds-errors path (parsed ds rules) t =
      let one =
        (load_rules-Rounds path rules (record t {
          skipped_parse_errors =
              t.skipped_parse_errors + errors_in platform parse_sigma_yaml no_id ds;
        })).1 in
      omega arith

  Adds-frames : Adds timeframes_share (λ t. t.skipped_timeframes)
  unfolding load_parsed
  Adds-frames path failed t = omega arith
  Adds-frames path (parsed ds rules) t =
      (load_rules-Rounds path rules (record t {
        skipped_parse_errors =
            t.skipped_parse_errors + errors_in platform parse_sigma_yaml no_id ds;
      })).2

  -- Where no directory fails to be read, every rule of the YAML files is loaded or counted as a
  -- duplicate, every text that does not parse and every error diagnostic is counted, and so is
  -- every rule with a timeframe.
  pub load_dirs_counts :
      (dirs : List Folder) (s : Loading)
      → load_dirs platform parse_sigma_yaml no_id dirs
          (nothing_loaded platform parse_sigma_yaml no_id)
        ≡ some s
      → (length s.rules + s.skipped_dupes ≡ totals rules_share dirs)
        × (s.skipped_parse_errors ≡ totals errors_share dirs)
        × (s.skipped_timeframes ≡ totals timeframes_share dirs)
  load_dirs_counts dirs s e =
      let start = nothing_loaded platform parse_sigma_yaml no_id in
      let rules =
        load_dirs-adds rules_share (λ t. length t.rules + t.skipped_dupes) Adds-rules dirs start s
          e in
      let errors =
        load_dirs-adds errors_share (λ t. t.skipped_parse_errors) Adds-errors dirs start s e in
      let frames =
        load_dirs-adds timeframes_share (λ t. t.skipped_timeframes) Adds-frames dirs start s e in
      (omega arith, omega arith, omega arith)
