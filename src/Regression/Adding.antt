-- ===== src/Regression/Adding.antt =====
-- `SigmahqRegression::add` of regression/mod.rs, and runs of it.
pub mod Once
use sigmacatch.Regression.State.{
  cur_dir, parent_dir, normal, PathBuf, SigmahqRegression, Uuid, Component, note_generation_failure,
}
use sigmacatch.Regression.TestsPath.{updated}
use sigmacatch.Regression.Generate.Store.{
  rule_file, info_yml, rule_yml, json_ext, Bytes, FilePath, same_component, Files, same_path,
}
use sigmacatch.Regression.Generate.{
  Alert, Platform, RegressionData, Calls, exists, ext, generate, sigma_rel_dir,
}
use sigmacatch.Prelude.{
  Bool, List, Option, String, [], false, has, if◌then◌else◌, insert_key, none, some, true, ℕ, ◌++◌,
  ◌==◌, ◌||◌, ◌∷◌,
}

-- `clean_path`
unfoldable pub clean_path : PathBuf → PathBuf
clean_path [] = []
clean_path (cur_dir ∷ p) = clean_path p
clean_path (parent_dir ∷ p) = clean_path p
clean_path (normal s ∷ p) = normal s ∷ clean_path p

-- `Path::strip_prefix`
abbrev pub strip_prefix : PathBuf → PathBuf → Option PathBuf
strip_prefix [] q = some q
strip_prefix (c ∷ p) [] = none
strip_prefix (c ∷ p) (d ∷ q) = if same_component c d then strip_prefix p q else none

abbrev or_sigma : Option PathBuf → PathBuf
or_sigma none = normal "sigma" ∷ []
or_sigma (some p) = p

abbrev prepend : Component → Option PathBuf → Option PathBuf
prepend c none = none
prepend c (some q) = some (c ∷ q)

-- `Path::parent`
abbrev parent : PathBuf → Option PathBuf
parent [] = none
parent (c ∷ []) = some []
parent (c ∷ d ∷ p) = prepend c (parent (d ∷ p))

-- The texts of the rules' files.
abbrev pub RuleTexts : Type 0
RuleTexts = PathBuf → Option Bytes

-- What stands behind the paths: the store of the data, and the rules' files.
pub record Disk : Type 0 where
  pub files : Files
  pub rule_texts : RuleTexts

-- What `add` takes from the standard library and the crate uuid, next to the platform: the text of
-- an id, `with_extension("")`, `display` and the tests for white space.
pub record Texts : Type 0 where
  pub print_uuid : Uuid → String
  pub with_extension : PathBuf → PathBuf
  pub display : PathBuf → Bytes
  pub is_whitespace : ℕ → Bool

module _ (platform : Platform) (texts : Texts) where
  open texts use {print_uuid, with_extension, display, is_whitespace}

  abbrev pub relative : PathBuf → Option PathBuf → Option PathBuf
  relative repo none = none
  relative repo (some p) = strip_prefix (clean_path repo) (clean_path p)

  abbrev without_extension : Option PathBuf → Option PathBuf
  without_extension none = none
  without_extension (some p) = some (with_extension p)

  abbrev author_of : Bytes → Option Bytes
  author_of [] = none
  author_of (b ∷ bs) = some (b ∷ bs)

  -- `RegressionData::for_rule` as `add` calls it, with the alert behind `add_alert`
  unfoldable pub for_rule : SigmahqRegression → PathBuf → Alert → RegressionData
  unfolding clean_path
  for_rule s output alert = record {
    rule_id = alert.rule_id;
    rule_title = alert.rule_title;
    alerts = alert ∷ [];
    output_path = output;
    rule_rel_path = without_extension (relative (or_sigma (parent output)) alert.rule_path);
    author = author_of s.author;
    description = alert.description;
    format = s.format;
    add_json_output = s.add_json_output;
  }

  abbrev repo_of : PathBuf → PathBuf
  repo_of output = or_sigma (parent output)

  -- The files that `add` returns, relative to the repository.
  abbrev written_files : RegressionData → Option PathBuf → List FilePath
  written_files d rule_yaml =
      let dir = sigma_rel_dir print_uuid d in
      let data_files =
        record { dir = dir; name = rule_file d.rule_id (ext d.format) }
        ∷ record { dir = dir; name = info_yml }
        ∷ [] in
      (if d.add_json_output
        then record { dir = dir; name = rule_file d.rule_id json_ext } ∷ []
        else [])
      ++ (data_files
          ++ elim rule_yaml [ none ↦ [] | some p ↦ record { dir = p; name = rule_yml } ∷ [] ])

  abbrev with_text : PathBuf → Option Bytes → RuleTexts → RuleTexts
  with_text p none ts = ts
  with_text p (some t) ts = λ q. if same_path p q then some t else ts q

  abbrev rewrite_text : Bytes → PathBuf → Option Bytes → RuleTexts → RuleTexts
  rewrite_text tests_path p none ts = ts
  rewrite_text tests_path p (some t) ts =
      with_text p (updated (platform.utf8 "regression_tests_path:") is_whitespace tests_path t) ts

  -- `update_regression_tests_path` on the rule's file, if the alert has one
  abbrev annotate : RegressionData → Option PathBuf → RuleTexts → RuleTexts
  annotate d none ts = ts
  annotate d (some p) ts =
      rewrite_text (display (sigma_rel_dir print_uuid d) ++ platform.utf8 "/info.yml") p (ts p) ts

  abbrev pub Added : Type 0
  Added = Option (List FilePath) × SigmahqRegression × Disk

  -- Behind the generation: a failure is noted, a success retires the rule.
  abbrev pub finish :
      SigmahqRegression → PathBuf → Alert → RegressionData → Disk → Bool × Files → Added
  finish s output alert d disk (false, fs) =
      (none, note_generation_failure alert.rule_id s, record disk { files = fs })
  finish s output alert d disk (true, fs) = (
    some (written_files d (relative (repo_of output) alert.rule_path)),
    record s { retired = (insert_key alert.rule_id s.retired).0 },
    record { files = fs; rule_texts = annotate d alert.rule_path disk.rule_texts },
  )

  abbrev pub add_to : Calls → Alert → SigmahqRegression → PathBuf → Disk → Added
  add_to calls alert s output disk =
      let d = for_rule s output alert in
      if has alert.rule_id s.retired || alert.rule_id == 0
      then (none, s, disk)
      else (if exists platform print_uuid d disk.files
          then (none, s, disk)
          else finish s output alert d disk (generate platform print_uuid calls d disk.files))

  abbrev pub add_below : Calls → Alert → SigmahqRegression → Option PathBuf → Disk → Added
  add_below calls alert s none disk = (none, s, disk)
  add_below calls alert s (some output) disk = add_to calls alert s output disk

  -- `add`; the nil id is 0.
  unfoldable pub add : Calls → Alert → SigmahqRegression → Disk → Added
  unfolding for_rule sigma_rel_dir ext updated exists generate note_generation_failure
  add calls alert s disk = add_below calls alert s s.output_path disk
