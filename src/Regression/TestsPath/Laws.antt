-- ===== src/Regression/TestsPath/Laws.antt =====
-- What the update of a rule's file does to its lines.
use sigmacatch.Auditd.RawFields.{grow_first, split_on}
use sigmacatch.Regression.TestsPath.{
  Text, ended, ends_with_newline, expected_line, is_annotation, is_expected, join, lines,
  strip_return, terminated, updated, texts_equal, trim,
}
use sigmacatch.Prelude.{
  All, Bool, Bool-cases, List, [], any, ap, append_assoc, ap₂, arith, false, inl, inr, keep, none,
  not, refl, some, sym, true, ℕ, ◌++◌, ◌==◌, ◌∙◌, ◌∷◌, ◌≡◌, ◌≢◌,
}

-- No line break and no carriage return.
abbrev pub IsPlain : Text → Type 0
IsPlain = All (λ c. (c ≢ 10) × (c ≢ 13))

abbrev pub HasNoReturn : Text → Type 0
HasNoReturn = All (λ c. c ≢ 13)

abbrev pub concat_lines : List Text → Text
concat_lines [] = []
concat_lines (l ∷ ls) = l ++ (10 ∷ concat_lines ls)

-- The lines without a blank one at the end.
abbrev pub drop_last_blank : List Text → List Text
drop_last_blank [] = []
drop_last_blank ([] ∷ []) = []
drop_last_blank ((c ∷ cs) ∷ []) = (c ∷ cs) ∷ []
drop_last_blank (l ∷ m ∷ ls) = l ∷ drop_last_blank (m ∷ ls)

terminated-cons : (a c : ℕ) (cs : Text) → terminated (a ∷ c ∷ cs) ≡ a ∷ terminated (c ∷ cs)
terminated-cons a c cs = elim (Bool-cases (ends_with_newline (c ∷ cs))) [
  | inl t ↦ rw t refl
  | inr f ↦ rw f refl
]

terminated-append : (l t : Text) → terminated (l ++ (10 ∷ t)) ≡ l ++ (10 ∷ terminated t)
terminated-append [] [] = refl
terminated-append [] (c ∷ cs) = terminated-cons 10 c cs
terminated-append (a ∷ []) t = terminated-cons a 10 t ∙ ap (λ x. a ∷ x) (terminated-append [] t)
terminated-append (a ∷ b ∷ l) t =
    terminated-cons a b (l ++ (10 ∷ t)) ∙ ap (λ x. a ∷ x) (terminated-append (b ∷ l) t)

unterminated : (c : ℕ) (cs : Text) → IsPlain (c ∷ cs) → ends_with_newline (c ∷ cs) ≡ false
unterminated c [] ((n, r), h) = ground arith
unterminated c (d ∷ ds) (p, h) = unterminated d ds h

terminated-join :
    (ls : List Text) → All IsPlain ls → terminated (join ls) ≡ concat_lines (drop_last_blank ls)
terminated-join [] h = refl
terminated-join ([] ∷ []) h = refl
terminated-join ((c ∷ cs) ∷ []) (p, h) = rw (unterminated c cs p) refl
terminated-join ([] ∷ m ∷ ls) (p, h) =
    terminated-append [] (join (m ∷ ls)) ∙ ap (λ x. 10 ∷ x) (terminated-join (m ∷ ls) h)
terminated-join ((c ∷ cs) ∷ m ∷ ls) (p, h) =
    terminated-append (c ∷ cs) (join (m ∷ ls))
    ∙ ap (λ x. (c ∷ cs) ++ (10 ∷ x)) (terminated-join (m ∷ ls) h)

strip_return-IsPlain : (l : Text) → IsPlain l → strip_return l ≡ l
strip_return-IsPlain [] h = refl
strip_return-IsPlain (c ∷ []) ((n, r), h) =
    let other : (c == 13) ≡ false = ground arith in rw other refl
strip_return-IsPlain (c ∷ d ∷ cs) (p, h) = ap (λ x. c ∷ x) (strip_return-IsPlain (d ∷ cs) h)

split_on-append :
    (l rest : Text) → IsPlain l → split_on 10 (l ++ (10 ∷ rest)) ≡ l ∷ split_on 10 rest
unfolding split_on
split_on-append [] rest h = refl
split_on-append (c ∷ cs) rest ((n, r), h) =
    let other : (c == 10) ≡ false = ground arith in
    rw other (ap (grow_first c) (split_on-append cs rest h))

-- Text always has a first piece.
pieces : (t : Text) → (l : Text) × (ls : List Text) × (split_on 10 t ≡ l ∷ ls)
unfolding split_on
pieces [] = ([], [], refl)
pieces (c ∷ cs) = elim (Bool-cases (c == 10)) [
  | inl t ↦ ([], split_on 10 cs, rw t refl)
  | inr f ↦ let (l, ls, e) = pieces cs in (c ∷ l, ls, rw (f, e) refl)
]

lines-append : (l rest : Text) → IsPlain l → lines (l ++ (10 ∷ rest)) ≡ l ∷ lines rest
unfolding lines
lines-append l rest h =
    let (m, ms, e) = pieces rest in
    ap ended (split_on-append l rest h ∙ ap (λ x. l ∷ x) e)
    ∙ ap₂ (λ x y. x ∷ y) (strip_return-IsPlain l h) (ap ended (sym e))

pub lines-concat_lines :
    (ls : List Text) (rest : Text)
    → All IsPlain ls
    → lines (concat_lines ls ++ rest) ≡ ls ++ lines rest
lines-concat_lines [] rest h = refl
lines-concat_lines (l ∷ ls) rest (p, h) =
    ap lines (append_assoc l (10 ∷ concat_lines ls) rest)
    ∙ (lines-append l (concat_lines ls ++ rest) p ∙ ap (λ x. l ∷ x) (lines-concat_lines ls rest h))

-- The lines of a text without carriage returns are plain.
grow_first-All :
    (c : ℕ) (ls : List Text) → (c ≢ 10) × (c ≢ 13) → All IsPlain ls → All IsPlain (grow_first c ls)
grow_first-All c [] p h = ((p, tt), tt)
grow_first-All c (l ∷ ls) p (q, h) = ((p, q), h)

pub split_on-All : (t : Text) → HasNoReturn t → All IsPlain (split_on 10 t)
unfolding split_on
split_on-All [] h = (tt, tt)
split_on-All (c ∷ cs) (r, h) = elim (Bool-cases (c == 10)) [
  | inl t ↦ rw t (tt, split_on-All cs h)
  | inr f ↦
      rw f (grow_first-All c (split_on 10 cs) ((λ e. absurd (ground arith)), r) (split_on-All cs h))
]

pub ended-All : (ls : List Text) → All IsPlain ls → All IsPlain (ended ls)
ended-All [] h = tt
ended-All ([] ∷ []) h = tt
ended-All ((c ∷ cs) ∷ []) h = h
ended-All ([] ∷ m ∷ ls) (p, h) = (tt, ended-All (m ∷ ls) h)
ended-All ((c ∷ cs) ∷ m ∷ ls) (p, h) =
    (rw (strip_return-IsPlain (c ∷ cs) p) p, ended-All (m ∷ ls) h)

keep-All : (p : Text → Bool) (ls : List Text) → All IsPlain ls → All IsPlain (keep p ls)
keep-All p [] h = tt
keep-All p (l ∷ ls) (q, h) = elim (Bool-cases (p l)) [
  | inl t ↦ rw t (q, keep-All p ls h)
  | inr f ↦ rw f (keep-All p ls h)
]

drop_last_blank-All : (ls : List Text) → All IsPlain ls → All IsPlain (drop_last_blank ls)
drop_last_blank-All [] h = tt
drop_last_blank-All ([] ∷ []) h = tt
drop_last_blank-All ((c ∷ cs) ∷ []) h = h
drop_last_blank-All ([] ∷ m ∷ ls) (p, h) = (p, drop_last_blank-All (m ∷ ls) h)
drop_last_blank-All ((c ∷ cs) ∷ m ∷ ls) (p, h) = (p, drop_last_blank-All (m ∷ ls) h)

module _ (key : Text) (is_whitespace : ℕ → Bool) where
  -- The lines that an update keeps.
  abbrev pub kept_lines : Text → List Text
  kept_lines content =
      drop_last_blank (keep (λ l. not (is_annotation key is_whitespace l)) (lines content))

  -- Where a file without carriage returns is rewritten, it has the lines that it had, in order,
  -- without those of the annotation and without one blank line at the end, and then the line of the
  -- annotation.
  pub lines-updated :
      (tests_path content new : Text)
      → IsPlain (expected_line key is_whitespace tests_path)
      → HasNoReturn content
      → updated key is_whitespace tests_path content ≡ some new
      → lines new ≡ kept_lines content ++ expected_line key is_whitespace tests_path ∷ []
  unfolding updated
  lines-updated tests_path content new plain fine e =
      elim (Bool-cases (any (is_expected key is_whitespace tests_path) (lines content))) [
        | inl there ↦ absurd (cc (rw there at e))
        | inr missing ↦
            let ls = keep (λ l. not (is_annotation key is_whitespace l)) (lines content) in
            let ok : All IsPlain ls =
              keep-All (λ l. not (is_annotation key is_whitespace l)) (lines content)
                (lines-All content fine) in
            let expected = expected_line key is_whitespace tests_path in
            let same : terminated (join ls) ++ (expected ++ 10 ∷ []) ≡ new = cc (rw missing at e) in
            rw (← same) (
              ap (λ t. lines (t ++ (expected ++ 10 ∷ []))) (terminated-join ls ok)
              ∙ (lines-concat_lines (drop_last_blank ls) (expected ++ 10 ∷ [])
                    (drop_last_blank-All ls ok)
                  ∙ ap (λ x. drop_last_blank ls ++ x)
                      (lines-append expected [] plain ∙ ap (λ x. expected ∷ x) no_lines)))
      ]
    where
      no_lines : lines [] ≡ []
      no_lines = refl

      lines-All : (t : Text) → HasNoReturn t → All IsPlain (lines t)
      lines-All t h = ended-All (split_on 10 t) (split_on-All t h)

  any_last :
      (p : Text → Bool) (ls : List Text) (l : Text) → p l ≡ true → any p (ls ++ l ∷ []) ≡ true
  any_last p [] l h = rw h refl
  any_last p (m ∷ ls) l h = ground (arith, any_last p ls l h)

  texts_equal_refl : (t : Text) → texts_equal t t ≡ true
  texts_equal_refl [] = refl
  texts_equal_refl (c ∷ cs) = ground (arith, texts_equal_refl cs)

  -- A file that was rewritten for a path is not rewritten for it again, if neither end of the
  -- annotation is white space.
  pub updated_again :
      (tests_path content new : Text)
      → IsPlain (expected_line key is_whitespace tests_path)
      → HasNoReturn content
      → trim key is_whitespace (expected_line key is_whitespace tests_path)
        ≡ expected_line key is_whitespace tests_path
      → updated key is_whitespace tests_path content ≡ some new
      → updated key is_whitespace tests_path new ≡ none
  unfolding updated
  updated_again tests_path content new plain fine clean e =
      let expected = expected_line key is_whitespace tests_path in
      let last : is_expected key is_whitespace tests_path expected ≡ true =
        ap (λ t. texts_equal t expected) clean ∙ texts_equal_refl expected in
      let found : any (is_expected key is_whitespace tests_path) (lines new) ≡ true =
        ap (any (is_expected key is_whitespace tests_path))
          (lines-updated tests_path content new plain fine e)
        ∙ any_last (is_expected key is_whitespace tests_path) (kept_lines content) expected last in
      rw found refl
