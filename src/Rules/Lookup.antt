-- ===== src/Rules/Lookup.antt =====
-- `SigmahqRules::get` and `remove_id` of rule/mod.rs.
use sigmacatch.Rules.{Platform, SigmaRule, SigmahqRules, Uuid}
use sigmacatch.Prelude.{
  ==_refl, Bool, Bool-cases, List, Option, String, [], ap, arith, eq_iff, false, find-remove,
  find_entry, if◌then◌else◌, inl, inr, keep, length, length-keep, none, not, refl, remove_entry,
  some, str_eq, true, ◌==◌, ◌∷◌, ◌≡◌,
}

abbrev is_id : String → Option String → Bool
is_id id_str none = false
is_id id_str (some id) = str_eq id id_str

module _ (platform : Platform) where
  open platform use {print_uuid}

  abbrev pub find_rule : String → List SigmaRule → Option SigmaRule
  find_rule id_str [] = none
  find_rule id_str (rule ∷ rules) =
      if is_id id_str rule.id then some rule else find_rule id_str rules

  -- `SigmahqRules::get`
  unfoldable pub get_rule : SigmahqRules → Uuid → Option SigmaRule
  get_rule set id = find_rule (print_uuid id) set.rules

  abbrev retained : String → List SigmaRule → List SigmaRule
  retained id_str rules = keep (λ rule. not (is_id id_str rule.id)) rules

  -- `SigmahqRules::remove_id`, and whether something was removed
  unfoldable pub remove_id : SigmahqRules → Uuid → SigmahqRules × Bool
  remove_id set id =
      let rules = retained (print_uuid id) set.rules in
      (
        record set { rules = rules; rule_paths = remove_entry id set.rule_paths },
        not (length rules == length set.rules),
      )

  abbrev pub is_found : Option SigmaRule → Bool
  is_found none = false
  is_found (some rule) = true

  find-retained_same : (t : String) (rules : List SigmaRule) → find_rule t (retained t rules) ≡ none
  find-retained_same t [] = refl
  find-retained_same t (rule ∷ rules) = elim (Bool-cases (is_id t rule.id)) [
    | inl same ↦ rw same (find-retained_same t rules)
    | inr other ↦ rw (other, other) (find-retained_same t rules)
  ]

  is_id_other :
      (t u : String) (o : Option String) → str_eq t u ≡ false → is_id t o ≡ true → is_id u o ≡ false
  is_id_other t u none n e = absurd (cc)
  is_id_other t u (some id) n e = ground (arith, eq_iff id t, eq_iff id u, eq_iff t u)

  find-retained_other :
      (t u : String) (rules : List SigmaRule)
      → str_eq t u ≡ false
      → find_rule u (retained t rules) ≡ find_rule u rules
  find-retained_other t u [] n = refl
  find-retained_other t u (rule ∷ rules) n = elim (Bool-cases (is_id t rule.id)) [
    | inl same ↦ rw (same, is_id_other t u rule.id n same) (find-retained_other t u rules n)
    | inr other ↦
        rw other
          (ap (λ r. if is_id u rule.id then some rule else r) (find-retained_other t u rules n))
  ]

  retained-length :
      (t : String) (rules : List SigmaRule)
      → not (length (retained t rules) == length rules) ≡ is_found (find_rule t rules)
  retained-length t [] = refl
  retained-length t (rule ∷ rules) =
      let shorter = length-keep {0} (λ r. not (is_id t r.id)) rules in
      elim (Bool-cases (is_id t rule.id)) [
        | inl same ↦ rw same (ground arith)
        | inr other ↦ rw other (ground (arith, retained-length t rules))
      ]

  -- After a removal the id is looked up without success and has no path; rules of ids with other
  -- texts are looked up as before; and the result says whether the id was there.
  pub remove_id_lem :
      (set : SigmahqRules) (id : Uuid)
      → (let (set', removed) = remove_id set id in
          (get_rule set' id ≡ none)
          × (find_entry id set'.rule_paths ≡ none)
          × (removed ≡ is_found (get_rule set id))
          × ((other : Uuid)
              → str_eq (print_uuid id) (print_uuid other) ≡ false
              → get_rule set' other ≡ get_rule set other))
  unfolding remove_id get_rule
  remove_id_lem set id = (
    find-retained_same (print_uuid id) set.rules,
    rw find-remove (rw ==_refl refl),
    retained-length (print_uuid id) set.rules,
    λ other n. find-retained_other (print_uuid id) (print_uuid other) set.rules n,
  )
