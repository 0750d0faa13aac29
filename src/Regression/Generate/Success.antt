-- ===== src/Regression/Generate/Success.antt =====
-- What a successful generation has written.
use sigmacatch.Regression.Generate.Laws.{is_below_refl}
use sigmacatch.Regression.State.{evtx, log, DataFormat, PathBuf, Uuid}
use sigmacatch.Regression.Generate.Store.{
  done, refused, cut, rule_file, Bytes, FilePath, Files, Write, put, same_name, same_path, write,
}
use sigmacatch.Regression.Generate.{
  Alert, Calls, Platform, RegressionData, both, data_path, export_event, ext, generate,
  generate_for, generate_with, info_of, info_path, log_content, resolve_provider, save_info,
  then_write, write_as, write_data_files, write_json_output, write_primary_data, written_paths,
}
use sigmacatch.Prelude.{
  ==_refl, Bool, Bool-cases, List, Option, String, [], ap, arith, false, if◌then◌else◌, inl, inr,
  length, ltb, none, refl, some, subst, sym, true, ◌++◌, ◌∙◌, ◌∷◌, ◌≡◌,
}

same_file_refl_dir : (p : PathBuf) → same_path p p ≡ true
same_file_refl_dir p = rw (is_below_refl p) refl

put_same :
    (p : FilePath) (bs : Bytes) (fs : Files)
    → same_name p.name p.name ≡ true
    → put p bs fs p ≡ some bs
put_same p bs fs h = rw (same_file_refl_dir p.dir, h) refl

put_other :
    (p q : FilePath) (bs : Bytes) (fs : Files)
    → same_name p.name q.name ≡ false
    → put p bs fs q ≡ fs q
put_other p q bs fs h = rw h (ground (arith, Bool-cases (same_path p.dir q.dir)))

-- A write that succeeds leaves the bytes in the file, and the files of other names alone.
write_lem :
    (w : Write) (p : FilePath) (bs : Bytes) (fs : Files)
    → same_name p.name p.name ≡ true
    → (write w p bs fs).0 ≡ true
    → ((write w p bs fs).1 p ≡ some bs)
      × ((q : FilePath) → same_name p.name q.name ≡ false → (write w p bs fs).1 q ≡ fs q)
unfolding write
write_lem done p bs fs h ok = (put_same p bs fs h, λ q n. put_other p q bs fs n)
write_lem refused p bs fs h ok = absurd (cc)
write_lem (cut n) p bs fs h ok = absurd (cc)

module _ (platform : Platform) (print_uuid : Uuid → String) (calls : Calls) where
  -- The lines of the alerts behind one another.
  abbrev pub raw_lines : List Alert → Bytes
  raw_lines [] = []
  raw_lines (a ∷ more) = a.event_raw ++ raw_lines more

  -- What the data file is to hold.
  abbrev pub content : DataFormat → List Alert → Option Bytes
  content log alerts = some (raw_lines alerts)
  content evtx alerts = calls.exported

  log_content_fine :
      (alerts : List Alert)
      → (log_content platform print_uuid alerts).1 ≡ true
      → (log_content platform print_uuid alerts).0 ≡ raw_lines alerts
  log_content_fine [] h = refl
  log_content_fine (a ∷ more) h =
      elim (Bool-cases (ltb platform.max_blob_size (length a.event_raw))) [
        | inl long ↦ absurd (cc (rw long at h))
        | inr fine ↦ rw fine (ap (λ l. a.event_raw ++ l) (log_content_fine more (rw fine at h)))
      ]

  both-true :
      (fine : Bool) (r : Bool × Files)
      → (both platform print_uuid fine r).0 ≡ true
      → (fine ≡ true) × (r.0 ≡ true)
  both-true true (true, fs) h = (refl, refl)
  both-true true (false, fs) h = absurd (cc)
  both-true false (true, fs) h = absurd (cc)
  both-true false (false, fs) h = absurd (cc)

  export_event_lem :
      (p : FilePath) (o : Option Bytes) (fs : Files)
      → same_name p.name p.name ≡ true
      → (export_event platform print_uuid calls p o fs).0 ≡ true
      → (export_event platform print_uuid calls p o fs).1 p ≡ o
  export_event_lem p none fs h ok = absurd (cc)
  export_event_lem p (some bs) fs h ok = (write_lem calls.data_write p bs fs h ok).0

  write_as_lem :
      (p : FilePath) (format : DataFormat) (alerts : List Alert) (fs : Files)
      → same_name p.name p.name ≡ true
      → (write_as platform print_uuid calls p format alerts fs).0 ≡ true
      → (write_as platform print_uuid calls p format alerts fs).1 p ≡ content format alerts
  write_as_lem p log alerts fs h ok =
      let bs = (log_content platform print_uuid alerts).0 in
      let (fine, wrote) =
        both-true (log_content platform print_uuid alerts).1 (write calls.data_write p bs fs) ok in
      (write_lem calls.data_write p bs fs h wrote).0 ∙ ap some (log_content_fine alerts fine)
  write_as_lem p evtx [] fs h ok = absurd (cc)
  write_as_lem p evtx (a ∷ more) fs h ok =
      elim (Bool-cases (ltb platform.max_blob_size (length a.event_raw))) [
        | inl long ↦ absurd (cc (rw long at ok))
        | inr fine ↦ rw fine (export_event_lem p calls.exported fs h (rw fine at ok))
      ]

  then_write_lem :
      (r : Bool × Files) (k : Files → Bool × Files) (q : FilePath) (o : Option Bytes)
      → ((gs : Files) → (k gs).0 ≡ true → (k gs).1 q ≡ o)
      → (then_write platform print_uuid r k).0 ≡ true
      → (then_write platform print_uuid r k).1 q ≡ o
  then_write_lem (false, fs) k q o h ok = absurd (cc)
  then_write_lem (true, fs) k q o h ok = h fs ok

  own_name :
      (d : RegressionData)
      → same_name (data_path platform print_uuid d).name (data_path platform print_uuid d).name
        ≡ true
  unfolding ext
  own_name d = named_by d.format
    where
      named_by :
          (f : DataFormat)
          → same_name (rule_file d.rule_id (ext f)) (rule_file d.rule_id (ext f)) ≡ true
      named_by evtx = ground (arith, ==_refl d.rule_id)
      named_by log = ground (arith, ==_refl d.rule_id)

  write_data_files_lem :
      (d : RegressionData) (fs : Files)
      → (write_data_files platform print_uuid calls d fs).0 ≡ true
      → (write_data_files platform print_uuid calls d fs).1 (data_path platform print_uuid d)
        ≡ content d.format d.alerts
  unfolding write_data_files write_primary_data
  write_data_files_lem d fs ok =
      then_write_lem
        (if d.add_json_output then write_json_output platform print_uuid calls d fs else (true, fs))
        (λ gs. write_primary_data platform print_uuid calls d gs) (data_path platform print_uuid d)
        (content d.format d.alerts)
        (λ gs fine.
          write_as_lem (data_path platform print_uuid d) d.format d.alerts gs (own_name d) fine)
        ok

  -- What a generation has written.
  abbrev pub Written : RegressionData → Bytes → Bool × Files → Type 0
  Written d provider r =
      (r.1 (data_path platform print_uuid d) ≡ content d.format d.alerts)
      × (r.1 (info_path platform print_uuid d)
          ≡ some (platform.canonical_yaml (info_of platform print_uuid provider d)))

  save_info_lem :
      (provider : Bytes) (d : RegressionData) (written : List FilePath) (r : Bool × Files)
      → (r.0 ≡ true → r.1 (data_path platform print_uuid d) ≡ content d.format d.alerts)
      → (save_info platform print_uuid calls provider d written r).0 ≡ true
      → Written d provider (save_info platform print_uuid calls provider d written r)
  save_info_lem provider d written (false, gs) h ok = absurd (cc)
  save_info_lem provider d written (true, gs) h ok =
      let text = platform.canonical_yaml (info_of platform print_uuid provider d) in
      let (there, others) =
        write_lem calls.info_write (info_path platform print_uuid d) text gs refl ok in
      (others (data_path platform print_uuid d) refl ∙ h refl, there)

  -- A generation that succeeds has written the data file, the raw lines of all alerts for a log and
  -- the exported event for an event log, and the `info.yml` of the rule.
  pub generate-Written :
      (first : Alert) (more : List Alert) (provider : Bytes) (d : RegressionData) (fs : Files)
      → d.alerts ≡ first ∷ more
      → resolve_provider platform print_uuid d.format first ≡ some provider
      → (generate platform print_uuid calls d fs).0 ≡ true
      → Written d provider (generate platform print_uuid calls d fs)
  unfolding generate
  generate-Written first more provider d fs alerts known ok =
      let whole : generate platform print_uuid calls d fs
          ≡ generate_with platform print_uuid calls (some provider) d fs =
        ap (λ as_. generate_for platform print_uuid calls as_ d fs) alerts
        ∙ ap (λ o. generate_with platform print_uuid calls o d fs) known in
      subst (Written d provider) (sym whole)
        (if_made calls.created (write_data_files_lem d fs) (rw whole at ok))
    where
      if_made :
          (b : Bool)
          → ((write_data_files platform print_uuid calls d fs).0 ≡ true
              → (write_data_files platform print_uuid calls d fs).1
                  (data_path platform print_uuid d)
                ≡ content d.format d.alerts)
          → (if b
              then save_info platform print_uuid calls provider d
                  (written_paths platform print_uuid calls d fs)
                  (write_data_files platform print_uuid calls d fs)
              else (false, fs)).0
            ≡ true
          → Written d provider (
              if b
              then save_info platform print_uuid calls provider d
                  (written_paths platform print_uuid calls d fs)
                  (write_data_files platform print_uuid calls d fs)
              else (false, fs))
      if_made false h made = absurd (cc)
      if_made true h made =
          save_info_lem provider d (written_paths platform print_uuid calls d fs)
            (write_data_files platform print_uuid calls d fs) h made
