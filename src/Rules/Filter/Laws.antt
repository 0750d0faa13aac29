-- ===== src/Rules/Filter/Laws.antt =====
-- What the filter of a rule set keeps and counts.
use sigmacatch.Rules.Filter.Passing.{Passes, passes, passes-Passes}
use sigmacatch.Rules.{Platform, SigmaRule, SigmahqRules}
use sigmacatch.Rules.Filter.{
  Filtering, SigmaFilterConfig, author_ok, filter, filter_rule, filter_rules, level_ok,
  nothing_filtered, product_ok, status_ok,
}
use sigmacatch.Prelude.{
  Bool, Bool-cases, List, [], ap, append-nil, append_assoc, arith, inl, inr, keep, length,
  length-append, not, refl, sym, true, ℕ, ◌&&◌, ◌++◌, ◌+◌, ◌↔◌, ◌∙◌, ◌∷◌, ◌≡◌,
}

module _ (platform : Platform) (filters : SigmaFilterConfig) where
  -- The first test that a rule fails.
  abbrev pub drops_product : SigmaRule → Bool
  drops_product rule = not (product_ok platform filters rule)

  abbrev pub drops_status : SigmaRule → Bool
  drops_status rule = product_ok platform filters rule && not (status_ok platform filters rule)

  abbrev pub drops_level : SigmaRule → Bool
  drops_level rule =
      product_ok platform filters rule
      && (status_ok platform filters rule && not (level_ok platform filters rule))

  abbrev pub drops_author : SigmaRule → Bool
  drops_author rule =
      product_ok platform filters rule
      && (status_ok platform filters rule
          && (level_ok platform filters rule && not (author_ok platform filters rule)))

  -- What the loop has added behind some rules.
  abbrev IsFiltered : Filtering → Filtering → List SigmaRule → Type 0
  IsFiltered s s' rules =
      (s'.rules ≡ s.rules ++ keep (passes platform filters) rules)
      × (s'.filtered_product ≡ s.filtered_product + length (keep drops_product rules))
      × (s'.filtered_status ≡ s.filtered_status + length (keep drops_status rules))
      × (s'.filtered_level ≡ s.filtered_level + length (keep drops_level rules))
      × (s'.filtered_author ≡ s.filtered_author + length (keep drops_author rules))

  filter_rule-IsFiltered :
      (rule : SigmaRule) (s : Filtering)
      → IsFiltered s (filter_rule platform filters rule s) (rule ∷ [])
  unfolding filter_rule
  filter_rule-IsFiltered rule s = elim (Bool-cases (product_ok platform filters rule)) [
    | inr p ↦ rw p (sym (append-nil s.rules), refl, omega arith, omega arith, omega arith)
    | inl p ↦ elim (Bool-cases (status_ok platform filters rule)) [
      | inr st ↦ rw (p, st) (sym (append-nil s.rules), omega arith, refl, omega arith, omega arith)
      | inl st ↦ elim (Bool-cases (level_ok platform filters rule)) [
        | inr l ↦
            rw (p, st, l) (sym (append-nil s.rules), omega arith, omega arith, refl, omega arith)
        | inl l ↦ elim (Bool-cases (author_ok platform filters rule)) [
          | inr a ↦
              rw (p, st, l, a)
                (sym (append-nil s.rules), omega arith, omega arith, omega arith, refl)
          | inl a ↦ rw (p, st, l, a) (refl, omega arith, omega arith, omega arith, omega arith)
        ]
      ]
    ]
  ]

  keep-cons :
      (p : SigmaRule → Bool) (rule : SigmaRule) (rules : List SigmaRule)
      → keep p (rule ∷ rules) ≡ keep p (rule ∷ []) ++ keep p rules
  keep-cons p rule rules = elim (Bool-cases (p rule)) [ inl t ↦ rw t refl | inr f ↦ rw f refl ]

  count-cons :
      (p : SigmaRule → Bool) (rule : SigmaRule) (rules : List SigmaRule) (n n' n'' : ℕ)
      → n' ≡ n + length (keep p (rule ∷ []))
      → n'' ≡ n' + length (keep p rules)
      → n'' ≡ n + length (keep p (rule ∷ rules))
  count-cons p rule rules n n' n'' h k =
      let sum = length-append {0} (keep p (rule ∷ [])) (keep p rules) in
      omega (arith, ap length (keep-cons p rule rules), sum, h, k)

  filter_rules-IsFiltered :
      (rules : List SigmaRule) (s : Filtering)
      → IsFiltered s (filter_rules platform filters rules s) rules
  unfolding filter_rules
  filter_rules-IsFiltered [] s =
      (sym (append-nil s.rules), omega arith, omega arith, omega arith, omega arith)
  filter_rules-IsFiltered (rule ∷ rules) s =
      let (kept1, p1, s1, l1, a1) = filter_rule-IsFiltered rule s in
      let (kept, p, st, l, a) =
        filter_rules-IsFiltered rules (filter_rule platform filters rule s) in
      (
        kept
            ∙ (ap (λ x. x ++ keep (passes platform filters) rules) kept1
                ∙ (append_assoc s.rules (keep (passes platform filters) (rule ∷ []))
                      (keep (passes platform filters) rules)
                    ∙ ap (λ x. s.rules ++ x)
                        (sym (keep-cons (passes platform filters) rule rules)))),
        count-cons drops_product rule rules _ _ _ p1 p,
        count-cons drops_status rule rules _ _ _ s1 st,
        count-cons drops_level rule rules _ _ _ l1 l,
        count-cons drops_author rule rules _ _ _ a1 a,
      )

  counted_once :
      (rules : List SigmaRule)
      → length (keep (passes platform filters) rules)
          + (length (keep drops_product rules)
              + (length (keep drops_status rules)
                  + (length (keep drops_level rules) + length (keep drops_author rules))))
        ≡ length rules
  counted_once [] = refl
  counted_once (rule ∷ rules) =
      let rest = counted_once rules in
      elim (Bool-cases (product_ok platform filters rule)) [
        | inr p ↦ rw p (omega (arith, rest))
        | inl p ↦ elim (Bool-cases (status_ok platform filters rule)) [
          | inr st ↦ rw (p, st) (omega (arith, rest))
          | inl st ↦ elim (Bool-cases (level_ok platform filters rule)) [
            | inr l ↦ rw (p, st, l) (omega (arith, rest))
            | inl l ↦ elim (Bool-cases (author_ok platform filters rule)) [
              | inr a ↦ rw (p, st, l, a) (omega (arith, rest))
              | inl a ↦ rw (p, st, l, a) (omega (arith, rest))
            ]
          ]
        ]
      ]

  -- Filtering keeps, in their order, just the rules that pass: whose product is that of the filters (so
  -- an empty product in the filters drops every rule with another one or none), whose status and level
  -- are accepted where both sides have one, and that have the wanted author among those between commas,
  -- if one is wanted. Each other rule is counted once, under the first of the four tests that it fails.
  pub filter_lem :
      (set : SigmahqRules)
      → (let kept = filter platform set filters in
          (kept.rules ≡ keep (passes platform filters) set.rules)
          × ((rule : SigmaRule)
              → (passes platform filters rule ≡ true) ↔ Passes platform filters rule)
          × (kept.stats.rules_filtered_product ≡ length (keep drops_product set.rules))
          × (kept.stats.rules_filtered_status ≡ length (keep drops_status set.rules))
          × (kept.stats.rules_filtered_level ≡ length (keep drops_level set.rules))
          × (kept.stats.rules_filtered_author ≡ length (keep drops_author set.rules))
          × (kept.stats.rules_loaded
                + (kept.stats.rules_filtered_product
                    + (kept.stats.rules_filtered_status
                        + (kept.stats.rules_filtered_level + kept.stats.rules_filtered_author)))
              ≡ kept.stats.rules_total_candidate))
  unfolding filter
  filter_lem set =
      let (kept, p, s, l, a) = filter_rules-IsFiltered set.rules (nothing_filtered platform) in
      (
        kept,
        passes-Passes platform filters,
        omega (arith, p),
        omega (arith, s),
        omega (arith, l),
        omega (arith, a),
        omega (arith, ap length kept, p, s, l, a, counted_once set.rules),
      )
