-- ===== src/Rules/Filter/Passing.antt =====
-- What the filters of a rule set ask of a rule.
use sigmacatch.Rules.Thresholds.{Level, Status, accepts_level, accepts_status}
use sigmacatch.Auditd.RawFields.{split_on}
use sigmacatch.Rules.{Platform, SigmaRule, Text}
use sigmacatch.Rules.Filter.{
  SigmaFilterConfig, author_ok, level_ok, product_ok, status_ok, author_between, level_between,
  status_between, texts_equal, trim,
}
use sigmacatch.Prelude.{
  Bool, Bool-cases, List, Option, String, [], any, ap, arith, eq_iff, false, inl, inr, none, refl,
  some, true, ◌&&◌, ◌↔◌, ◌∷◌, ◌≡◌, ◌⊎◌,
}

texts_equal_refl : (s : Text) → texts_equal s s ≡ true
texts_equal_refl [] = refl
texts_equal_refl (a ∷ s) = ground (arith, texts_equal_refl s)

texts_equal-eq : (s t : Text) → texts_equal s t ≡ true → s ≡ t
texts_equal-eq [] [] h = refl
texts_equal-eq [] (b ∷ t) h = absurd (cc)
texts_equal-eq (a ∷ s) [] h = absurd (cc)
texts_equal-eq (a ∷ s) (b ∷ t) h =
    let head : a ≡ b = ground arith in let tail : s ≡ t = texts_equal-eq s t (ground arith) in cc

-- One of the parts is the wanted name behind its blanks.
abbrev pub HasAuthor : (trimmed : Text → Text) → Text → List Text → Type 0
HasAuthor trimmed wanted [] = ⊥
HasAuthor trimmed wanted (part ∷ parts) = (trimmed part ≡ wanted) ⊎ HasAuthor trimmed wanted parts

any-HasAuthor :
    (trimmed : Text → Text) (wanted : Text) (parts : List Text)
    → (any (λ a. texts_equal (trimmed a) wanted) parts ≡ true) ↔ HasAuthor trimmed wanted parts
any-HasAuthor trimmed wanted [] = (λ h. absurd (cc), λ h. absurd h)
any-HasAuthor trimmed wanted (part ∷ parts) =
    let (there, back) = any-HasAuthor trimmed wanted parts in
    (
      λ h. elim (Bool-cases (texts_equal (trimmed part) wanted)) [
        | inl t ↦ inl (texts_equal-eq (trimmed part) wanted t)
        | inr f ↦ inr (there (rw f at h))
      ],
      λ h. elim h [
        | inl e ↦ rw (e, texts_equal_refl wanted) refl
        | inr m ↦ rw (back m) (ground (arith, Bool-cases (texts_equal (trimmed part) wanted)))
      ],
    )

module _ (platform : Platform) (filters : SigmaFilterConfig) where
  open platform use {to_lowercase}

  abbrev pub passes : SigmaRule → Bool
  passes rule =
      product_ok platform filters rule
      && (status_ok platform filters rule
          && (level_ok platform filters rule && author_ok platform filters rule))

  -- What the filters ask of a rule: its product is that of the filters; its status and its level are
  -- accepted, if both sides have one; and with an author in the filters, one of the rule's authors,
  -- behind commas and in lower case, is that author, blanks around it aside.
  abbrev pub StatusHolds : Option Status → Option Status → Type 0
  StatusHolds (some threshold) (some s) = accepts_status threshold s ≡ true
  StatusHolds none _ = Unit
  StatusHolds (some threshold) none = Unit

  abbrev pub LevelHolds : Option Level → Option Level → Type 0
  LevelHolds (some threshold) (some l) = accepts_level threshold l ≡ true
  LevelHolds none _ = Unit
  LevelHolds (some threshold) none = Unit

  abbrev pub AuthorHolds : Option Text → Option Text → Type 0
  AuthorHolds (some wanted) (some authors) =
      HasAuthor (trim platform) (to_lowercase (trim platform wanted))
        (split_on b',' (to_lowercase authors))
  AuthorHolds (some _) none = ⊥
  AuthorHolds none _ = Unit

  abbrev pub Passes : SigmaRule → Type 0
  Passes rule =
      (rule.product ≡ some filters.product)
      × StatusHolds filters.min_status rule.status
      × LevelHolds filters.min_level rule.level
      × AuthorHolds filters.author rule.author

  product_ok_lem :
      (rule : SigmaRule)
      → (product_ok platform filters rule ≡ true) ↔ (rule.product ≡ some filters.product)
  unfolding product_ok
  product_ok_lem rule = of_product rule.product refl
    where
      of_product :
          (o : Option String)
          → rule.product ≡ o
          → (product_ok platform filters rule ≡ true) ↔ (o ≡ some filters.product)
      of_product none e = rw e (λ h. absurd (cc), λ h. absurd (cc))
      of_product (some p) e = rw e (
        λ h. ap some ((eq_iff p filters.product).0 h),
        λ h. (eq_iff p filters.product).1 (let same : p ≡ filters.product = cc in same),
      )

  status_lem : (o s : Option Status) → (status_between platform o s ≡ true) ↔ StatusHolds o s
  status_lem (some threshold) (some s) = (λ h. h, λ h. h)
  status_lem none s = (λ h. tt, λ h. refl)
  status_lem (some threshold) none = (λ h. tt, λ h. refl)

  level_lem : (o l : Option Level) → (level_between platform o l ≡ true) ↔ LevelHolds o l
  level_lem (some threshold) (some l) = (λ h. h, λ h. h)
  level_lem none l = (λ h. tt, λ h. refl)
  level_lem (some threshold) none = (λ h. tt, λ h. refl)

  author_lem : (o a : Option Text) → (author_between platform o a ≡ true) ↔ AuthorHolds o a
  author_lem (some wanted) (some authors) =
      any-HasAuthor (trim platform) (to_lowercase (trim platform wanted))
        (split_on b',' (to_lowercase authors))
  author_lem (some wanted) none = (λ h. absurd (cc), λ h. absurd h)
  author_lem none a = (λ h. tt, λ h. refl)

  and_true : (a b : Bool) → (a && b) ≡ true → (a ≡ true) × (b ≡ true)
  and_true true b h = (refl, h)
  and_true false b h = absurd (cc)

  pub passes-Passes : (rule : SigmaRule) → (passes rule ≡ true) ↔ Passes rule
  unfolding status_ok level_ok author_ok
  passes-Passes rule =
      let product = product_ok_lem rule in
      let status = status_lem filters.min_status rule.status in
      let level = level_lem filters.min_level rule.level in
      let author = author_lem filters.author rule.author in
      (
        λ h.
            (let (p, h1) = and_true (product_ok platform filters rule) _ h in
              let (s, h2) = and_true (status_ok platform filters rule) _ h1 in
              let (l, a) = and_true (level_ok platform filters rule) _ h2 in
              (product.0 p, status.0 s, level.0 l, author.0 a)),
        λ (p, s, l, a). rw (product.1 p, status.1 s, level.1 l, author.1 a) refl,
      )
