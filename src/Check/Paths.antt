-- ===== src/Check/Paths.antt =====
-- `validate_regression_paths`, `resolve_upstream_relative`, `validate_declared_tests` and
-- `out_of_spec_types`: whether the paths that rules and entries declare lead to one another.
pub mod Laws
use sigmacatch.Prelude.{
  Bool, List, Option, String, [], false, if◌then◌else◌, none, some, str_eq, ℕ, ◌++◌, ◌+◌, ◌==◌,
  ◌||◌, ◌∷◌,
}

-- An entry of the regression data: the path of its `info.yml`, and its rule.
pub record Entry : Type 0 where
  pub info_path : String
  pub rule_id : ℕ

-- A rule's `regression_tests_path`: missing, of another type than text, or a text.
pub data Attribute : Type 0 where
  absent not_text : Attribute
  declared : String → Attribute

-- `missing_path` and `mismatched_path`
pub record PathValidation : Type 0 where
  pub missing_path : ℕ
  pub mismatched_path : ℕ

-- The rules, by their ids and in order, with what they declare; `Path::join` on the root, and
-- whether a path exists.
pub record Tree : Type 0 where
  pub get : ℕ → Option Attribute
  pub attributes : List Attribute
  pub join_root : String → String
  pub exists : String → Bool

module _ (tree : Tree) where
  open tree use {get, attributes, join_root, exists}

  abbrev pub missed : PathValidation → PathValidation
  missed v = record v { missing_path = v.missing_path + 1 }

  abbrev pub mismatched : PathValidation → PathValidation
  mismatched v = record v { mismatched_path = v.mismatched_path + 1 }

  abbrev pub against_rule : Entry → Option Attribute → PathValidation → PathValidation
  against_rule entry none v = missed v
  against_rule entry (some absent) v = missed v
  against_rule entry (some not_text) v = missed v
  against_rule entry (some (declared rtp)) v =
      if str_eq entry.info_path (join_root rtp) then v else mismatched v

  -- The first loop: each entry's rule exists and declares the entry's path.
  unfoldable pub check_entries : List Entry → PathValidation → PathValidation
  check_entries [] v = v
  check_entries (e ∷ es) v = check_entries es (against_rule e (get e.rule_id) v)

  abbrev pub has_path : String → List Entry → Bool
  has_path p [] = false
  has_path p (e ∷ es) = str_eq e.info_path p || has_path p es

  abbrev pub against_entries : List Entry → Attribute → PathValidation → PathValidation
  against_entries es absent v = v
  against_entries es not_text v = v
  against_entries es (declared rtp) v =
      if exists (join_root rtp)
      then (if has_path (join_root rtp) es then v else missed v)
      else mismatched v

  -- The second loop: each declared path exists and has an entry.
  unfoldable pub check_rules : List Entry → List Attribute → PathValidation → PathValidation
  check_rules es [] v = v
  check_rules es (a ∷ as') v = check_rules es as' (against_entries es a v)

  unfoldable pub validate_regression_paths : List Entry → PathValidation
  unfolding check_entries check_rules
  validate_regression_paths es =
      check_rules es attributes
        (check_entries es (record { missing_path = 0; mismatched_path = 0 }))

-- `RegressionTestInfo`, but for its name and provider.
pub record TestInfo : Type 0 where
  pub test_type : String
  pub match_count : ℕ
  pub pipelines : Option (List String)
  pub filters : Option (List String)
  pub path : String

-- What the paths of the declared tests are looked up in: the ancestors of the root, from the root
-- on, `Path::join`, and the length of a file, if it is there.
pub record Disk : Type 0 where
  pub root : String
  pub ancestors : List String
  pub is_absolute : String → Bool
  pub join : String → String → String
  pub exists : String → Bool
  pub file_len : String → Option ℕ

pub data TestError : Type 0 where
  path_not_found data_empty : ℕ → TestError
  pipeline_not_found filter_not_found : ℕ → ℕ → TestError

module _ (disk : Disk) where
  open disk use {root, ancestors, is_absolute, join, exists, file_len}

  -- The loop of `resolve_upstream_relative`.
  unfoldable pub walk_up : String → List String → Option String
  walk_up candidate [] = none
  walk_up candidate (dir ∷ dirs) =
      let above = walk_up candidate dirs in
      if exists (join dir candidate) then some (join dir candidate) else above

  unfoldable pub resolve_upstream_relative : String → Option String
  unfolding walk_up
  resolve_upstream_relative rel =
      if is_absolute rel then (if exists rel then some rel else none) else walk_up rel ancestors

  abbrev pub unless_resolved : TestError → Option String → List TestError → List TestError
  unless_resolved e none es = e ∷ es
  unless_resolved e (some p) es = es

  -- The loop over the files of one kind, from file `j` on.
  unfoldable pub missing_files : (ℕ → TestError) → ℕ → List String → List TestError
  unfolding resolve_upstream_relative
  missing_files error j [] = []
  missing_files error j (f ∷ fs) =
      unless_resolved (error j) (resolve_upstream_relative f) (missing_files error (j + 1) fs)

  abbrev pub files_of : Option (List String) → List String
  files_of none = []
  files_of (some fs) = fs

  abbrev pub is_zero_len : Option ℕ → Bool
  is_zero_len none = false
  is_zero_len (some n) = n == 0

  abbrev pub data_errors : ℕ → String → List TestError
  data_errors i data_path =
      if exists data_path
      then (if is_zero_len (file_len data_path) then data_empty i ∷ [] else [])
      else path_not_found i ∷ []

  abbrev pub test_errors : ℕ → TestInfo → List TestError
  test_errors i t =
      data_errors i (join root t.path)
      ++ (missing_files (pipeline_not_found i) 0 (files_of t.pipelines)
          ++ missing_files (filter_not_found i) 0 (files_of t.filters))

  -- `validate_declared_tests`, from test `i` on
  unfoldable pub validate_declared_tests : ℕ → List TestInfo → List TestError
  unfolding missing_files
  validate_declared_tests i [] = []
  validate_declared_tests i (t ∷ ts) = test_errors i t ++ validate_declared_tests (i + 1) ts

-- `is_sigma_spec_type`
unfoldable pub is_sigma_spec_type : String → Bool
is_sigma_spec_type t = str_eq t "evtx" || str_eq t "json" || str_eq t "ndjson" || str_eq t "jsonl"

abbrev pub count_type : String → List (String × ℕ) → List (String × ℕ)
count_type t [] = (t, 1) ∷ []
count_type t ((u, n) ∷ counts) =
    let rest = count_type t counts in if str_eq u t then (u, n + 1) ∷ counts else (u, n) ∷ rest

-- `out_of_spec_types`: the map of the counts by type.
unfoldable pub out_of_spec_types : List TestInfo → List (String × ℕ) → List (String × ℕ)
unfolding is_sigma_spec_type
out_of_spec_types [] counts = counts
out_of_spec_types (t ∷ ts) counts =
    out_of_spec_types ts
      (if is_sigma_spec_type t.test_type then counts else count_type t.test_type counts)
