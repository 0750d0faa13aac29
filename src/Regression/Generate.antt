-- ===== src/Regression/Generate.antt =====
-- `RegressionData` of regression/mod.rs, over a store of files.
pub mod Store
pub mod Laws
pub mod Success
use sigmacatch.Json.{Json}
use sigmacatch.Regression.State.{normal, evtx, log, DataFormat, PathBuf, Uuid}
use sigmacatch.Regression.Generate.Store.{
  rule_file, info_yml, evtx_ext, log_ext, json_ext, Bytes, Extension, FilePath, Files, Write,
  remove_below, write, without,
}
use sigmacatch.Prelude.{
  Bool, List, Option, String, [], false, if◌then◌else◌, length, ltb, none, not, some, true, ℕ, ◌&&◌,
  ◌++◌, ◌∷◌,
}

-- The parts of an `Alert` that the generation reads.
pub record Alert : Type 0 where
  pub rule_id : Uuid
  pub rule_title : Bytes
  pub description : Option Bytes
  pub rule_path : Option PathBuf
  pub provider : Bytes
  pub event_raw : Bytes
  pub event_json_raw : Json
  pub event_json_raw_all : Option (List Json)

-- `InfoYml`, but for its random id and its date
pub record InfoYml : Type 0 where
  pub rule_id : Uuid
  pub rule_title : Bytes
  pub match_count : ℕ
  pub path : FilePath
  pub author : Bytes
  pub description : Bytes
  pub test_type : Extension
  pub provider : Bytes

-- What the crates give: the texts of JSON values and of `info.yml`; and the bound on a data blob.
pub record Platform : Type 0 where
  pub pretty : Json → Bytes
  pub compact : Json → Bytes
  pub canonical_yaml : InfoYml → Bytes
  pub utf8 : String → Bytes
  pub max_blob_size : ℕ

-- What the calls of a generation give: the directory, the three writes, the exported event log
-- (`none`: `write_evtx` fails), the files that the clean-up can remove one by one, and those that
-- survive the removal of the directory.
pub record Calls : Type 0 where
  pub created : Bool
  pub json_write : Write
  pub data_write : Write
  pub info_write : Write
  pub exported : Option Bytes
  pub removes : FilePath → Bool
  pub survives : FilePath → Bool

-- `RegressionData`, with the two fields of its header
pub record RegressionData : Type 0 where
  pub rule_id : Uuid
  pub rule_title : Bytes
  pub alerts : List Alert
  pub output_path : PathBuf
  pub rule_rel_path : Option PathBuf
  pub author : Option Bytes
  pub description : Option Bytes
  pub format : DataFormat
  pub add_json_output : Bool

-- `DataFormat::ext`
unfoldable pub ext : DataFormat → Extension
ext evtx = evtx_ext
ext log = log_ext

-- `rule_dir`; the text of an id is the crate uuid's.
unfoldable pub rule_dir : (Uuid → String) → RegressionData → PathBuf
rule_dir print_uuid d = elim d.rule_rel_path [
  | some rel ↦ d.output_path ++ rel
  | none ↦ d.output_path ++ normal "rules" ∷ normal (print_uuid d.rule_id) ∷ []
]

-- `sigma_rel_dir` with what its callers put for `None`
unfoldable pub sigma_rel_dir : (Uuid → String) → RegressionData → PathBuf
sigma_rel_dir print_uuid d = elim d.rule_rel_path [
  | some rel ↦ normal "regression_data" ∷ rel
  | none ↦ normal "regression_data" ∷ normal "rules" ∷ normal (print_uuid d.rule_id) ∷ []
]

module _ (platform : Platform) (print_uuid : Uuid → String) where
  open platform use {pretty, compact, canonical_yaml, utf8, max_blob_size}

  abbrev is_empty : Bytes → Bool
  is_empty [] = true
  is_empty (b ∷ bs) = false

  abbrev pub or_else : Option Bytes → Bytes → Bytes
  or_else none b = b
  or_else (some a) b = a

  abbrev pub data_path : RegressionData → FilePath
  data_path d = record { dir = rule_dir print_uuid d; name = rule_file d.rule_id (ext d.format) }

  abbrev pub info_path : RegressionData → FilePath
  info_path d = record { dir = rule_dir print_uuid d; name = info_yml }

  abbrev pub json_path : RegressionData → FilePath
  json_path d = record { dir = rule_dir print_uuid d; name = rule_file d.rule_id json_ext }

  abbrev is_non_empty : Option Bytes → Bool
  is_non_empty none = false
  is_non_empty (some bs) = not (is_empty bs)

  abbrev is_there : Option Bytes → Bool
  is_there none = false
  is_there (some bs) = true

  -- `exists`, with `data_file_exists`
  unfoldable pub exists : RegressionData → Files → Bool
  unfolding rule_dir ext
  exists d fs = is_there (fs (info_path d)) && is_non_empty (fs (data_path d))

  -- `DataFormat::resolve_provider`
  unfoldable pub resolve_provider : DataFormat → Alert → Option Bytes
  resolve_provider evtx alert = if is_empty alert.provider then none else some alert.provider
  resolve_provider log alert =
      if is_empty alert.provider then some (utf8 "auditd") else some alert.provider

  abbrev pub records_of : List Alert → List Json
  records_of [] = []
  records_of (a ∷ as_) =
      elim a.event_json_raw_all [ none ↦ a.event_json_raw ∷ [] | some all ↦ all ] ++ records_of as_

  abbrev lines_of : List Json → Bytes
  lines_of [] = []
  lines_of (j ∷ js) = compact j ++ (10 ∷ lines_of js)

  -- A lone record is pretty-printed; several are one line each.
  abbrev pub json_text : List Json → Bytes
  json_text [] = []
  json_text (j ∷ []) = pretty j ++ 10 ∷ []
  json_text (j ∷ k ∷ js) = lines_of (j ∷ k ∷ js)

  -- `write_json_output`
  unfoldable pub write_json_output : Calls → RegressionData → Files → Bool × Files
  unfolding rule_dir write
  write_json_output calls d fs =
      write calls.json_write (json_path d) (json_text (records_of d.alerts)) fs

  -- The loop over the alerts of a log: what is written, and whether no alert was too long.
  abbrev pub log_content : List Alert → Bytes × Bool
  log_content [] = ([], true)
  log_content (a ∷ as_) =
      let (more, fine) = log_content as_ in
      if ltb max_blob_size (length a.event_raw) then ([], false) else (a.event_raw ++ more, fine)

  abbrev pub both : Bool → Bool × Files → Bool × Files
  both fine (ok, fs) = (ok && fine, fs)

  abbrev pub export_event : Calls → FilePath → Option Bytes → Files → Bool × Files
  export_event calls p none fs = (false, fs)
  export_event calls p (some bs) fs = write calls.data_write p bs fs

  abbrev pub write_as : Calls → FilePath → DataFormat → List Alert → Files → Bool × Files
  write_as calls p log alerts fs =
      let (content, fine) = log_content alerts in both fine (write calls.data_write p content fs)
  write_as calls p evtx [] fs = (false, fs)
  write_as calls p evtx (a ∷ _) fs =
      if ltb max_blob_size (length a.event_raw)
      then (false, fs)
      else export_event calls p calls.exported fs

  -- `write_primary_data`; there is a first alert, or `generate` has returned.
  unfoldable pub write_primary_data : Calls → RegressionData → Files → Bool × Files
  unfolding rule_dir ext write
  write_primary_data calls d fs = write_as calls (data_path d) d.format d.alerts fs

  abbrev pub then_write : Bool × Files → (Files → Bool × Files) → Bool × Files
  then_write (false, fs) k = (false, fs)
  then_write (true, fs) k = k fs

  -- `write_data_files`
  unfoldable pub write_data_files : Calls → RegressionData → Files → Bool × Files
  unfolding write_json_output write_primary_data
  write_data_files calls d fs =
      let json = if d.add_json_output then write_json_output calls d fs else (true, fs) in
      then_write json (λ fs'. write_primary_data calls d fs')

  abbrev pub pushed : Bool → FilePath → List FilePath → List FilePath
  pushed false p later = []
  pushed true p later = p ∷ later

  -- What `write_data_files` pushes to `written`: each path behind its write.
  unfoldable pub written_paths : Calls → RegressionData → Files → List FilePath
  unfolding rule_dir ext write_json_output write_primary_data
  written_paths calls d fs =
      let (json_ok, fs') = if d.add_json_output then write_json_output calls d fs else (true, fs) in
      let last = pushed (write_primary_data calls d fs').0 (data_path d) [] in
      if d.add_json_output then pushed json_ok (json_path d) last else last

  abbrev pub remove_written : Calls → List FilePath → Files → Files
  remove_written calls [] fs = fs
  remove_written calls (p ∷ ps) fs = remove_written calls ps (without p (calls.removes p) fs)

  -- `cleanup_on_failure`
  unfoldable pub cleanup_on_failure : Calls → List FilePath → RegressionData → Files → Files
  unfolding rule_dir remove_below
  cleanup_on_failure calls written d fs =
      remove_below calls.survives (rule_dir print_uuid d) (remove_written calls written fs)

  -- The `info.yml` of a generation.
  unfoldable pub info_of : Bytes → RegressionData → InfoYml
  unfolding sigma_rel_dir ext
  info_of provider d = record {
    rule_id = d.rule_id;
    rule_title = d.rule_title;
    match_count = length d.alerts;
    path = record { dir = sigma_rel_dir print_uuid d; name = rule_file d.rule_id (ext d.format) };
    author = or_else d.author (utf8 "Sigma Regression Generator");
    description = or_else d.description (utf8 "N/A");
    test_type = ext d.format;
    provider = provider;
  }

  -- Behind the data files: the clean-up, or `info.yml`.
  abbrev pub save_info :
      Calls → Bytes → RegressionData → List FilePath → Bool × Files → Bool × Files
  save_info calls provider d written (false, fs) = (false, cleanup_on_failure calls written d fs)
  save_info calls provider d written (true, fs) =
      write calls.info_write (info_path d) (canonical_yaml (info_of provider d)) fs

  abbrev pub generate_with : Calls → Option Bytes → RegressionData → Files → Bool × Files
  generate_with calls none d fs = (false, fs)
  generate_with calls (some provider) d fs =
      if calls.created
      then save_info calls provider d (written_paths calls d fs) (write_data_files calls d fs)
      else (false, fs)

  abbrev pub generate_for : Calls → List Alert → RegressionData → Files → Bool × Files
  generate_for calls [] d fs = (false, fs)
  generate_for calls (first ∷ _) d fs = generate_with calls (resolve_provider d.format first) d fs

  -- `generate`, and whether it returned `Ok`
  unfoldable pub generate : Calls → RegressionData → Files → Bool × Files
  unfolding resolve_provider write_data_files written_paths cleanup_on_failure info_of write
  generate calls d fs = generate_for calls d.alerts d fs
