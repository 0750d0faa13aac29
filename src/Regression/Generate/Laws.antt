-- ===== src/Regression/Generate/Laws.antt =====
-- What a generation leaves in the store of files.
use sigmacatch.Regression.State.{
  cur_dir, parent_dir, normal, evtx, log, Component, PathBuf, Uuid, DataFormat,
}
use sigmacatch.Regression.Generate.Store.{
  done, refused, cut, Bytes, FilePath, Files, Write, is_below, put, write, remove_below,
  same_component, without,
}
use sigmacatch.Regression.Generate.{
  Calls, Platform, RegressionData, rule_dir, write_json_output, write_primary_data, Alert,
  cleanup_on_failure, export_event, generate, generate_for, generate_with, info_of, info_path,
  log_content, resolve_provider, save_info, then_write, write_as, write_data_files, json_path,
  json_text, records_of, data_path, pushed, remove_written, written_paths,
}
use sigmacatch.Prelude.{
  All, Bool, Bool-cases, List, Option, String, [], arith, eq_iff, false, if◌then◌else◌, inl, inr,
  length, ltb, none, refl, some, subst, take, true, ◌∙◌, ◌∷◌, ◌≡◌,
}

same_component_refl : (c : Component) → same_component c c ≡ true
same_component_refl cur_dir = refl
same_component_refl parent_dir = refl
same_component_refl (normal a) = ground (arith, eq_iff a a)

pub is_below_refl : (p : PathBuf) → is_below p p ≡ true
is_below_refl [] = refl
is_below_refl (c ∷ p) = rw (same_component_refl c) (is_below_refl p)

-- The two stores agree but on files below the directory.
abbrev pub AgreeOutside : PathBuf → Files → Files → Type 0
AgreeOutside d fs gs = (q : FilePath) → is_below d q.dir ≡ false → gs q ≡ fs q

outside_trans :
    (d : PathBuf) (fs gs hs : Files)
    → AgreeOutside d fs gs
    → AgreeOutside d gs hs
    → AgreeOutside d fs hs
outside_trans d fs gs hs h k q out = k q out ∙ h q out

put-AgreeOutside : (p : FilePath) (bs : Bytes) (fs : Files) → AgreeOutside p.dir fs (put p bs fs)
put-AgreeOutside p bs fs q out = rw out refl

write-AgreeOutside :
    (w : Write) (p : FilePath) (bs : Bytes) (fs : Files) → AgreeOutside p.dir fs (write w p bs fs).1
unfolding write
write-AgreeOutside done p bs fs = put-AgreeOutside p bs fs
write-AgreeOutside refused p bs fs = λ q out. refl
write-AgreeOutside (cut n) p bs fs = put-AgreeOutside p (take n bs) fs

if-AgreeOutside :
    (dir : PathBuf) (b : Bool) (r s : Bool × Files) (fs : Files)
    → AgreeOutside dir fs r.1
    → AgreeOutside dir fs s.1
    → AgreeOutside dir fs (if b then r else s).1
if-AgreeOutside dir true r s fs h k = h
if-AgreeOutside dir false r s fs h k = k

module _ (platform : Platform) (print_uuid : Uuid → String) (calls : Calls) where
  export_event-AgreeOutside :
      (p : FilePath) (o : Option Bytes) (fs : Files)
      → AgreeOutside p.dir fs (export_event platform print_uuid calls p o fs).1
  export_event-AgreeOutside p none fs = λ q out. refl
  export_event-AgreeOutside p (some bs) fs = write-AgreeOutside calls.data_write p bs fs

  write_as-AgreeOutside :
      (p : FilePath) (format : DataFormat) (alerts : List Alert) (fs : Files)
      → AgreeOutside p.dir fs (write_as platform print_uuid calls p format alerts fs).1
  write_as-AgreeOutside p log alerts fs =
      write-AgreeOutside calls.data_write p (log_content platform print_uuid alerts).0 fs
  write_as-AgreeOutside p evtx [] fs = λ q out. refl
  write_as-AgreeOutside p evtx (a ∷ more) fs =
      elim (Bool-cases (ltb platform.max_blob_size (length a.event_raw))) [
        | inl long ↦ rw long (λ q out. refl)
        | inr fine ↦ rw fine (export_event-AgreeOutside p calls.exported fs)
      ]

  then_write-AgreeOutside :
      (dir : PathBuf) (r : Bool × Files) (k : Files → Bool × Files) (fs : Files)
      → AgreeOutside dir fs r.1
      → ((gs : Files) → AgreeOutside dir gs (k gs).1)
      → AgreeOutside dir fs (then_write platform print_uuid r k).1
  then_write-AgreeOutside dir (false, gs) k fs h all = h
  then_write-AgreeOutside dir (true, gs) k fs h all = outside_trans dir fs gs (k gs).1 h (all gs)

  write_data_files-AgreeOutside :
      (d : RegressionData) (fs : Files)
      → AgreeOutside (rule_dir print_uuid d) fs (write_data_files platform print_uuid calls d fs).1
  unfolding write_data_files write_json_output write_primary_data
  write_data_files-AgreeOutside d fs = elim (Bool-cases d.add_json_output) [
    | inl with_json ↦ rw with_json (
        then_write-AgreeOutside (rule_dir print_uuid d)
          (write_json_output platform print_uuid calls d fs)
          (λ gs. write_primary_data platform print_uuid calls d gs) fs
          (write-AgreeOutside calls.json_write (json_path platform print_uuid d)
            (json_text platform print_uuid (records_of platform print_uuid d.alerts)) fs)
          (λ gs. write_as-AgreeOutside (data_path platform print_uuid d) d.format d.alerts gs))
    | inr alone ↦
        rw alone (write_as-AgreeOutside (data_path platform print_uuid d) d.format d.alerts fs)
  ]

  abbrev LiesIn : PathBuf → List FilePath → Type 0
  LiesIn dir ps = All (λ p. p.dir ≡ dir) ps

  pushed-LiesIn :
      (b : Bool) (p : FilePath) (later : List FilePath)
      → LiesIn p.dir later
      → LiesIn p.dir (pushed platform print_uuid b p later)
  pushed-LiesIn false p later h = tt
  pushed-LiesIn true p later h = (refl, h)

  written_paths-LiesIn :
      (d : RegressionData) (fs : Files)
      → LiesIn (rule_dir print_uuid d) (written_paths platform print_uuid calls d fs)
  unfolding written_paths
  written_paths-LiesIn d fs =
      let json = write_json_output platform print_uuid calls d fs in
      elim (Bool-cases d.add_json_output) [
        | inl with_json ↦ rw with_json (
            pushed-LiesIn json.0 (json_path platform print_uuid d) _ (
              pushed-LiesIn (write_primary_data platform print_uuid calls d json.1).0
                (data_path platform print_uuid d) [] tt))
        | inr alone ↦ rw alone (
            pushed-LiesIn (write_primary_data platform print_uuid calls d fs).0
              (data_path platform print_uuid d) [] tt)
      ]

  remove_written-AgreeOutside :
      (dir : PathBuf) (ps : List FilePath) (fs : Files)
      → LiesIn dir ps
      → AgreeOutside dir fs (remove_written platform print_uuid calls ps fs)
  remove_written-AgreeOutside dir [] fs h = λ q out. refl
  remove_written-AgreeOutside dir (p ∷ ps) fs (here, h) =
      let fs' = without p (calls.removes p) fs in
      outside_trans dir fs fs' (remove_written platform print_uuid calls ps fs')
        (subst (λ x. AgreeOutside x fs fs') here (λ q out. rw out refl))
        (remove_written-AgreeOutside dir ps fs' h)

  cleanup-AgreeOutside :
      (d : RegressionData) (written : List FilePath) (fs : Files)
      → LiesIn (rule_dir print_uuid d) written
      → AgreeOutside
          (rule_dir print_uuid d)
          fs
          (cleanup_on_failure platform print_uuid calls written d fs)
  unfolding cleanup_on_failure remove_below
  cleanup-AgreeOutside d written fs h q out =
      rw out (remove_written-AgreeOutside (rule_dir print_uuid d) written fs h q out)

  save_info-AgreeOutside :
      (provider : Bytes) (d : RegressionData) (written : List FilePath) (r : Bool × Files)
      (fs : Files)
      → LiesIn (rule_dir print_uuid d) written
      → AgreeOutside (rule_dir print_uuid d) fs r.1
      → AgreeOutside
          (rule_dir print_uuid d)
          fs
          (save_info platform print_uuid calls provider d written r).1
  save_info-AgreeOutside provider d written (false, gs) fs lies h =
      outside_trans (rule_dir print_uuid d) fs gs
        (cleanup_on_failure platform print_uuid calls written d gs) h
        (cleanup-AgreeOutside d written gs lies)
  save_info-AgreeOutside provider d written (true, gs) fs lies h =
      let text = platform.canonical_yaml (info_of platform print_uuid provider d) in
      outside_trans (rule_dir print_uuid d) fs gs
        (write calls.info_write (info_path platform print_uuid d) text gs).1 h
        (write-AgreeOutside calls.info_write (info_path platform print_uuid d) text gs)

  generate_with-AgreeOutside :
      (provider : Option Bytes) (d : RegressionData) (fs : Files)
      → AgreeOutside
          (rule_dir print_uuid d)
          fs
          (generate_with platform print_uuid calls provider d fs).1
  generate_with-AgreeOutside none d fs = λ q out. refl
  generate_with-AgreeOutside (some provider) d fs =
      if-AgreeOutside (rule_dir print_uuid d) calls.created
        (save_info platform print_uuid calls provider d
          (written_paths platform print_uuid calls d fs)
          (write_data_files platform print_uuid calls d fs))
        (false, fs) fs
        (save_info-AgreeOutside provider d (written_paths platform print_uuid calls d fs)
          (write_data_files platform print_uuid calls d fs) fs (written_paths-LiesIn d fs)
          (write_data_files-AgreeOutside d fs))
        (λ q out. refl)

  generate_for-AgreeOutside :
      (alerts : List Alert) (d : RegressionData) (fs : Files)
      → AgreeOutside
          (rule_dir print_uuid d)
          fs
          (generate_for platform print_uuid calls alerts d fs).1
  generate_for-AgreeOutside [] d fs = λ q out. refl
  generate_for-AgreeOutside (first ∷ more) d fs =
      generate_with-AgreeOutside (resolve_provider platform print_uuid d.format first) d fs

  -- A generation, whatever fails in it, leaves all files outside the rule's directory alone.
  pub generate-AgreeOutside :
      (d : RegressionData) (fs : Files)
      → AgreeOutside (rule_dir print_uuid d) fs (generate platform print_uuid calls d fs).1
  unfolding generate
  generate-AgreeOutside d fs = generate_for-AgreeOutside d.alerts d fs
