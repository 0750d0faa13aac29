-- ===== src/Detection/Engine/Alerts.antt =====
-- Which rule and which file an alert names.
use sigmacatch.Json.{Json}
use sigmacatch.Detection.Cache.{Bytes}
use sigmacatch.Detection.Engine.Queue.{Op, run, run-rules}
use sigmacatch.Event.Payload.{Event}
use sigmacatch.Detection.Engine.{
  DetectionEngine, MatchHeader, alert_of, build_rule_id_map, find_id, id_of, insert_id,
  with_default, Loader, reload_rules,
}
use sigmacatch.Prelude.{
  Bool, Bool-cases, List, Option, String, [], ap, arith, eq_iff, find_entry, if◌then◌else◌, inl,
  inr, refl, some, str_eq, sym, ℕ, ◌==◌, ◌∙◌, ◌∷◌, ◌≡◌,
}

find_id-insert_id :
    (s t : String) (u : ℕ) (ids : List (String × ℕ))
    → find_id s (insert_id t u ids) ≡ (if str_eq t s then some u else find_id s ids)
find_id-insert_id s t u [] = refl
find_id-insert_id s t u ((r, v) ∷ ids) =
    ground (arith, eq_iff t s, eq_iff r t, eq_iff r s, find_id-insert_id s t u ids)

module _ (uuid_text : ℕ → String) where
  find_id-kept :
      ((u v : ℕ) → uuid_text u ≡ uuid_text v → u ≡ v)
      → (u : ℕ) (paths : List (ℕ × String)) (ids : List (String × ℕ))
      → find_id (uuid_text u) ids ≡ some u
      → find_id (uuid_text u) (build_rule_id_map uuid_text paths ids) ≡ some u
  unfolding build_rule_id_map
  find_id-kept one u [] ids h = h
  find_id-kept one u ((v, p) ∷ paths) ids h =
      find_id-kept one u paths (insert_id (uuid_text v) v ids) (
        find_id-insert_id (uuid_text u) (uuid_text v) v ids
        ∙ (elim (Bool-cases (str_eq (uuid_text v) (uuid_text u))) [
          | inl same ↦ rw same (ap some (one v u ((eq_iff _ _).0 same)))
          | inr other ↦ rw other h
        ]))

  find_id-build :
      ((u v : ℕ) → uuid_text u ≡ uuid_text v → u ≡ v)
      → (u : ℕ) (p : String) (paths : List (ℕ × String)) (ids : List (String × ℕ))
      → find_entry u paths ≡ some p
      → find_id (uuid_text u) (build_rule_id_map uuid_text paths ids) ≡ some u
  unfolding build_rule_id_map
  find_id-build one u p [] ids h = absurd (cc)
  find_id-build one u p ((v, q) ∷ paths) ids h = elim (Bool-cases (v == u)) [
    | inl same ↦
        let e : v ≡ u = ground arith in
        find_id-kept one u paths (insert_id (uuid_text v) v ids) (
          find_id-insert_id (uuid_text u) (uuid_text v) v ids
          ∙ rw e (rw ((eq_iff (uuid_text u) (uuid_text u)).1 refl) refl))
    | inr other ↦ find_id-build one u p paths (insert_id (uuid_text v) v ids) (rw other at h)
  ]

  alert_of-known :
      {Engine : Type 0}
      → ((u v : ℕ) → uuid_text u ≡ uuid_text v → u ≡ v)
      → (s : DetectionEngine Engine) (event : Event) (header : MatchHeader) (u : ℕ) (p : String)
      → s.rule_id_map ≡ build_rule_id_map uuid_text s.rule_paths []
      → find_entry u s.rule_paths ≡ some p
      → header.id ≡ some (uuid_text u)
      → (let alert = alert_of s event header in
          (alert.rule_id ≡ u)
          × (alert.rule_path ≡ some p)
          × (alert.event_json_raw ≡ event.event_json_raw)
          × (alert.event_json ≡ event.event_json)
          × (alert.event_raw ≡ event.event_raw)
          × (alert.event_json_raw_all ≡ event.event_json_raw_all))
  unfolding alert_of
  alert_of-known one s event header u p m f h =
      let found : with_default 0 (id_of s.rule_id_map header.id) ≡ u =
        rw (h, m) (ap (with_default 0) (find_id-build one u p s.rule_paths [] f)) in
      (found, ap (λ k. find_entry k s.rule_paths) found ∙ f, refl, refl, refl, refl)

  -- After a change of the rules and any operations on the queue, a result that carries the text of
  -- the uuid of a rule that has a file gives an alert that names this rule and its file, and
  -- carries the four views of the event unchanged: the texts of two uuids differ.
  pub alert_of-reload_rules :
      {Engine Rule : Type 0}
      → ((u v : ℕ) → uuid_text u ≡ uuid_text v → u ≡ v)
      → (loader : Loader Engine Rule)
        (evaluate_batch : Engine → List Json → List (List MatchHeader)) (file : Option Bytes)
        (written : Bool) (key : Bytes) (rules : List Rule) (paths : List (ℕ × String))
        (s : DetectionEngine Engine) (ops : List Op) (event : Event) (header : MatchHeader) (u : ℕ)
        (p : String)
      → find_entry u paths ≡ some p
      → header.id ≡ some (uuid_text u)
      → (let reloaded = (reload_rules loader uuid_text file written key rules paths s).0 in
          let alert = alert_of (run evaluate_batch ops reloaded).0 event header in
          (alert.rule_id ≡ u)
          × (alert.rule_path ≡ some p)
          × (alert.event_json_raw ≡ event.event_json_raw)
          × (alert.event_json ≡ event.event_json)
          × (alert.event_raw ≡ event.event_raw)
          × (alert.event_json_raw_all ≡ event.event_json_raw_all))
  unfolding reload_rules
  alert_of-reload_rules one loader evaluate_batch file written key rules paths s ops event header u
        p f h =
      let reloaded = (reload_rules loader uuid_text file written key rules paths s).0 in
      let (same_paths, same_ids) = run-rules evaluate_batch ops reloaded in
      alert_of-known one (run evaluate_batch ops reloaded).0 event header u p
        (same_ids ∙ ap (λ ps. build_rule_id_map uuid_text ps []) (sym same_paths))
        (ap (find_entry u) same_paths ∙ f) h
