-- ===== src/Rules/Loading.antt =====
-- `SigmahqRules::new_from_path` of rule/mod.rs: the rules of a tree of files.
pub mod Counts
pub mod Ids
use sigmacatch.Rules.{PathBuf, Platform, SigmaRule, SigmahqRules, Uuid}
use sigmacatch.Prelude.{
  Bool, List, Option, String, [], false, if◌then◌else◌, insert_entry, length, none, some, str_eq,
  suc, true, zero, ℕ, ◌++◌, ◌+◌, ◌||◌, ◌∷◌,
}

-- `DiagnosticSeverity`
pub data Severity : Type 0 where
  error : Severity
  warning : Severity

-- What `parse_sigma_yaml` gives: an error, or the diagnostics and the rules.
pub data Parsed : Type 0 where
  failed : Parsed
  parsed : List Severity → List SigmaRule → Parsed

-- An entry that is a file: its path, extension, name and content, if they can be read as text.
pub record File : Type 0 where
  pub path : PathBuf
  pub extension : Option String
  pub file_name : Option String
  pub content : Option String

mutual
  pub data Node : Type 0 where
    is_file : File → Node
    is_dir : Folder → Node
    is_other : Node

  -- A path that is no directory, one that cannot be read, and one with its entries.
  pub data Folder : Type 0 where
    no_folder : Folder
    unreadable : Folder
    folder : Nodes → Folder

  pub data Nodes : Type 0 where
    no_nodes : Nodes
    node : Node → Nodes → Nodes

-- The set that is built, with the ids seen and the counters.
pub record Loading : Type 0 where
  pub rules : List SigmaRule
  pub rule_paths : List (Uuid × PathBuf)
  pub seen_ids : List String
  pub skipped_dupes : ℕ
  pub skipped_parse_errors : ℕ
  pub skipped_timeframes : ℕ

abbrev pub seen : String → List String → Bool
seen id [] = false
seen id (i ∷ is) = str_eq i id || seen id is

-- `format!("no-id-{}", path.display())` is a parameter, as are the parser and the ids' texts.
module _ (platform : Platform) (parse_sigma_yaml : String → Parsed) (no_id : PathBuf → String) where
  open platform use {parse_uuid}

  abbrev path_at : Option Uuid → PathBuf → List (Uuid × PathBuf) → List (Uuid × PathBuf)
  path_at none path paths = paths
  path_at (some uuid) path paths = insert_entry uuid path paths

  abbrev pub id_or : Option String → PathBuf → String
  id_or none path = no_id path
  id_or (some id) path = id

  -- `seen_ids.insert(id)` and its two branches.
  abbrev pub add_rule : PathBuf → SigmaRule → Loading → Loading
  add_rule path rule s =
      let id = id_or rule.id path in
      if seen id s.seen_ids then record s { skipped_dupes = s.skipped_dupes + 1 } else record s {
        seen_ids = id ∷ s.seen_ids;
        rule_paths = path_at (parse_uuid id) path s.rule_paths;
        rules = s.rules ++ rule ∷ [];
      }

  abbrev pub count_timeframe : Bool → Loading → Loading
  count_timeframe false s = s
  count_timeframe true s = record s { skipped_timeframes = s.skipped_timeframes + 1 }

  -- A round of `for rule in parsed.rules`.
  unfoldable pub load_rule : PathBuf → SigmaRule → Loading → Loading
  load_rule path rule s = add_rule path rule (count_timeframe rule.timeframe s)

  unfoldable pub load_rules : PathBuf → List SigmaRule → Loading → Loading
  unfolding load_rule
  load_rules path [] s = s
  load_rules path (rule ∷ rules) s = load_rules path rules (load_rule path rule s)

  abbrev pub errors_in : List Severity → ℕ
  errors_in [] = 0
  errors_in (error ∷ ds) = suc (errors_in ds)
  errors_in (warning ∷ ds) = errors_in ds

  unfoldable pub load_parsed : PathBuf → Parsed → Loading → Loading
  unfolding load_rules
  load_parsed path failed s = record s { skipped_parse_errors = s.skipped_parse_errors + 1 }
  load_parsed path (parsed diagnostics rules) s =
      load_rules path rules
        (record s { skipped_parse_errors = s.skipped_parse_errors + errors_in diagnostics })

  abbrev is_text : Option String → String → Bool
  is_text none t = false
  is_text (some s) t = str_eq s t

  -- The guards on a file: a YAML file that is not `index.yml` and can be read.
  unfoldable pub wanted : File → Option String
  wanted f =
      if is_text f.extension "yml" || is_text f.extension "yaml"
      then (if is_text f.file_name "index.yml" then none else f.content)
      else none

  abbrev pub load_content : PathBuf → Option String → Loading → Loading
  load_content path none s = s
  load_content path (some content) s = load_parsed path (parse_sigma_yaml content) s

  unfoldable pub load_file : File → Loading → Loading
  unfolding wanted load_parsed
  load_file f s = load_content f.path (wanted f) s

  -- The loop over the entries of a directory: its directories go onto the stack.
  unfoldable pub load_nodes : Nodes → List Folder → Loading → List Folder × Loading
  unfolding load_file
  load_nodes no_nodes pending s = (pending, s)
  load_nodes (node (is_file f) ns) pending s = load_nodes ns pending (load_file f s)
  load_nodes (node (is_dir d) ns) pending s = load_nodes ns (d ∷ pending) s
  load_nodes (node is_other ns) pending s = load_nodes ns pending s

  -- `while let Some(current) = pending.pop()`, the top of the stack first; `none` is an error of
  -- `read_dir`. Each round takes a directory of the tree off, so their number is fuel enough.
  unfoldable pub load_pending : (fuel : ℕ) → List Folder → Loading → Option Loading
  unfolding load_nodes
  load_pending zero pending s = some s
  load_pending (suc fuel) [] s = some s
  load_pending (suc fuel) (no_folder ∷ pending) s = load_pending fuel pending s
  load_pending (suc fuel) (unreadable ∷ pending) s = none
  load_pending (suc fuel) (folder ns ∷ pending) s =
      let (pending', s') = load_nodes ns pending s in load_pending fuel pending' s'

  mutual
    folders_in : Folder → ℕ
    folders_in no_folder = 1
    folders_in unreadable = 1
    folders_in (folder ns) = suc (folders_below ns)

    folders_below : Nodes → ℕ
    folders_below no_nodes = 0
    folders_below (node (is_file f) ns) = folders_below ns
    folders_below (node (is_dir d) ns) = folders_in d + folders_below ns
    folders_below (node is_other ns) = folders_below ns

  abbrev pub nothing_loaded : Loading
  nothing_loaded = record {
    rules = [];
    rule_paths = [];
    seen_ids = [];
    skipped_dupes = 0;
    skipped_parse_errors = 0;
    skipped_timeframes = 0;
  }

  abbrev pub then_load : Option Loading → (Loading → Option Loading) → Option Loading
  then_load none k = none
  then_load (some s) k = k s

  -- `for dir in &dirs`
  unfoldable pub load_dirs : List Folder → Loading → Option Loading
  unfolding load_pending folders_in folders_below
  load_dirs [] s = some s
  load_dirs (dir ∷ dirs) s =
      then_load (load_pending (folders_in dir) (dir ∷ []) s) (λ s'. load_dirs dirs s')

  -- `RulesError`, and the results that may be one.
  pub data Loaded : Type 0 where
    no_rules_dirs : Loaded
    io : Loaded
    loaded : SigmahqRules → Loaded

  -- The set and its counters behind the loops.
  abbrev pub finish : Loading → SigmahqRules
  finish s = record {
    rules = s.rules;
    rule_paths = s.rule_paths;
    stats = record {
      rules_loaded = length s.rules;
      rules_filtered_product = 0;
      rules_filtered_status = 0;
      rules_filtered_level = 0;
      rules_filtered_author = 0;
      rules_total_candidate = length s.rules;
      rules_parse_failed = s.skipped_parse_errors;
      rules_timeframe_ignored = s.skipped_timeframes;
    };
  }

  abbrev loaded_or : Option Loading → Loaded
  loaded_or none = io
  loaded_or (some s) = loaded (finish s)

  -- `SigmahqRules::new_from_path`, from the directories that `find_rules_dirs` returned
  unfoldable pub new_from_path : List Folder → Loaded
  unfolding load_dirs
  new_from_path [] = no_rules_dirs
  new_from_path (dir ∷ dirs) = loaded_or (load_dirs (dir ∷ dirs) nothing_loaded)
