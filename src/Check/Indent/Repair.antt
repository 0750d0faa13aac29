-- ===== src/Check/Indent/Repair.antt =====
-- `fix_json_newlines` of the check tool: the repair of the indentation.
use sigmacatch.Regression.TestsPath.Laws.{
  IsPlain, HasNoReturn, concat_lines, ended-All, lines-concat_lines, split_on-All,
}
use sigmacatch.Regression.TestsPath.{join, lines}
use sigmacatch.Text.{is_space}
use sigmacatch.Auditd.RawFields.{split_on}
use sigmacatch.Lines.{
  Line, indent_of, is_item, is_remark, strip_dashes, trim_left, trim_line, spaces_before,
}
use sigmacatch.Lines.Laws.{
  indent_of-spaces_before, indent_of-trim_left, trim_left-spaces_before, trim_left-trim_left,
}
use sigmacatch.Check.Indent.{
  Template, before_colon, body_of, find_template, keyed, or_zero, reindented, template_of,
  any_differs, differs, with_indent, reindent_line, significant, yaml_lines, yaml_template, Misfit,
  canonical_indent, first_misfit, fix_indentation, misfit, needs_reindent, reindent_yaml,
  trim_newlines, validate_yaml_indentation, without_bom, against_canonical, fix_against,
}
use sigmacatch.Prelude.{
  All, Bool, Bool-cases, List, Option, [], ap, append-nil, append_assoc, arith, false,
  if◌then◌else◌, inl, inr, map, none, refl, some, suc, sym, true, zero, ℕ, ◌&&◌, ◌++◌, ◌==◌, ◌∙◌,
  ◌∷◌, ◌≡◌,
}

keyed-item : (key k : Line) (b : Bool) → keyed key b ≡ some (k, true) → b ≡ true
keyed-item [] k b h = absurd (cc)
keyed-item (c ∷ key) k true h = refl
keyed-item (c ∷ key) k false h = absurd (cc)

-- An item's template is that of its body.
template_of-item :
    (t k : Line)
    → template_of t ≡ some (k, true)
    → keyed (trim_line (before_colon (trim_left (strip_dashes t)))) true ≡ some (k, true)
unfolding template_of
template_of-item t k h = elim (Bool-cases (is_remark t)) [
  | inl r ↦ absurd (cc (rw r at h))
  | inr f ↦
      let h' : keyed (trim_line (before_colon (body_of t))) (is_item t) ≡ some (k, true) =
        rw f at h in
      let item : is_item t ≡ true = keyed-item _ k (is_item t) h' in rw item at h'
]

template_of-dash :
    (t k : Line)
    → template_of t ≡ some (k, true)
    → template_of (45 ∷ 32 ∷ trim_left (strip_dashes t)) ≡ some (k, true)
unfolding template_of trim_left strip_dashes
template_of-dash t k h =
    ap (λ l. keyed (trim_line (before_colon l)) true) (trim_left-trim_left (strip_dashes t))
    ∙ template_of-item t k h

-- A line with a key keeps its key, and gets the canonical indentation of the key.
reindented-template :
    (canonical : List (Template × ℕ)) (line k : Line) (item : Bool)
    → template_of (trim_left line) ≡ some (k, item)
    → (let new = reindented canonical line (trim_left line) (some (k, item)) in
        (template_of (trim_left new) ≡ some (k, item))
        × (indent_of new ≡ or_zero (find_template (k, item) canonical)))
unfolding indent_of trim_left
reindented-template canonical line k true h =
    let n = or_zero (find_template (k, true) canonical) in
    let body = 45 ∷ 32 ∷ trim_left (strip_dashes (trim_left line)) in
    (
      ap template_of (trim_left-spaces_before n body) ∙ template_of-dash (trim_left line) k h,
      omega (arith, indent_of-spaces_before n body),
    )
reindented-template canonical line k false h =
    let n = or_zero (find_template (k, false) canonical) in
    (
      ap template_of (trim_left-spaces_before n (trim_left line) ∙ trim_left-trim_left line) ∙ h,
      omega (arith, indent_of-spaces_before n (trim_left line), indent_of-trim_left line),
    )

abbrev pub is_some {ℓ} : {A : Type ℓ} → Option A → Bool
is_some none = false
is_some (some a) = true

-- Every key of the lines is a key of the canonical text.
abbrev pub all_known : List (Template × ℕ) → List (Template × ℕ) → Bool
all_known canonical [] = true
all_known canonical ((t, n) ∷ ls) = is_some (find_template t canonical) && all_known canonical ls

known-or_zero : (o : Option ℕ) → is_some o ≡ true → differs (or_zero o) o ≡ false
known-or_zero none h = absurd (cc)
known-or_zero (some n) h = ground arith

-- The line behind the repair has no key, or its key and the canonical indentation.
line_mended :
    (canonical : List (Template × ℕ)) (line : Line) (o : Option Template)
    (rest later : List (Template × ℕ))
    → template_of (trim_left line) ≡ o
    → all_known canonical (with_indent (indent_of line) o rest) ≡ true
    → (let new = reindented canonical line (trim_left line) o in
        (any_differs canonical (with_indent (indent_of new) (template_of (trim_left new)) later)
          ≡ any_differs canonical later)
        × (all_known canonical rest ≡ true))
unfolding any_differs
line_mended canonical line none rest later e h = (rw e refl, h)
line_mended canonical line (some (k, item)) rest later e h =
    let (template, indent) = reindented-template canonical line k item e in
    let known : is_some (find_template (k, item) canonical) ≡ true = ground arith in
    (
      rw (template, indent) (rw (known-or_zero (find_template (k, item) canonical) known) refl),
      ground arith,
    )

lines_mended :
    (canonical : List (Template × ℕ)) (ls : List Line)
    → all_known canonical (significant ls) ≡ true
    → any_differs canonical (significant (map (reindent_line canonical) ls)) ≡ false
unfolding significant reindent_line any_differs yaml_template
lines_mended canonical [] h = refl
lines_mended canonical (l ∷ ls) h =
    let (here, later) =
      line_mended canonical l (template_of (trim_left l)) (significant ls)
        (significant (map (reindent_line canonical) ls)) refl h in
    here ∙ lines_mended canonical ls later

-- No line gets a line break or a carriage return.
trim_left-IsPlain : (l : Line) → IsPlain l → IsPlain (trim_left l)
unfolding trim_left
trim_left-IsPlain [] h = tt
trim_left-IsPlain (c ∷ l) (p, h) = elim (Bool-cases (is_space c)) [
  | inl t ↦ rw t (trim_left-IsPlain l h)
  | inr f ↦ rw f (p, h)
]

strip_dashes-IsPlain : (l : Line) → IsPlain l → IsPlain (strip_dashes l)
unfolding strip_dashes
strip_dashes-IsPlain [] h = tt
strip_dashes-IsPlain (c ∷ l) (p, h) = elim (Bool-cases (c == 45)) [
  | inl t ↦ rw t (strip_dashes-IsPlain l h)
  | inr f ↦ rw f (p, h)
]

spaces_before-IsPlain : (n : ℕ) (l : Line) → IsPlain l → IsPlain (spaces_before n l)
unfolding spaces_before
spaces_before-IsPlain zero l h = h
spaces_before-IsPlain (suc n) l h =
    (((λ e. omega arith), (λ e. omega arith)), spaces_before-IsPlain n l h)

reindented-IsPlain :
    (canonical : List (Template × ℕ)) (l : Line) (o : Option Template)
    → IsPlain l
    → IsPlain (reindented canonical l (trim_left l) o)
reindented-IsPlain canonical l none h = h
reindented-IsPlain canonical l (some (k, true)) h = spaces_before-IsPlain _ _ (
  ((λ e. omega arith), (λ e. omega arith)),
  (
    ((λ e. omega arith), (λ e. omega arith)),
    trim_left-IsPlain _ (strip_dashes-IsPlain _ (trim_left-IsPlain l h)),
  ),
)
reindented-IsPlain canonical l (some (k, false)) h =
    spaces_before-IsPlain _ _ (trim_left-IsPlain l h)

reindent_lines-IsPlain :
    (canonical : List (Template × ℕ)) (ls : List Line)
    → All IsPlain ls
    → All IsPlain (map (reindent_line canonical) ls)
unfolding reindent_line
reindent_lines-IsPlain canonical [] h = tt
reindent_lines-IsPlain canonical (l ∷ ls) (p, h) =
    (reindented-IsPlain canonical l (yaml_template l) p, reindent_lines-IsPlain canonical ls h)

-- The lines of what is written are the mended lines; an empty text gets a blank line.
join-concat_lines :
    (l : Line) (ls : List Line) → join (l ∷ ls) ++ 10 ∷ [] ≡ concat_lines (l ∷ ls) ++ []
join-concat_lines l [] = sym (append-nil (l ++ 10 ∷ []))
join-concat_lines l (m ∷ ls) =
    append_assoc l (10 ∷ join (m ∷ ls)) (10 ∷ [])
    ∙ ap (λ x. l ++ (10 ∷ x)) (join-concat_lines m ls)
    ∙ sym (append_assoc l (10 ∷ concat_lines (m ∷ ls)) [])

yaml_lines-join :
    (ls : List Line) → All IsPlain ls → yaml_lines (join ls ++ 10 ∷ []) ≡ significant ls
unfolding yaml_lines lines
yaml_lines-join [] h = refl
yaml_lines-join (l ∷ ls) h =
    ap significant
      (ap lines (join-concat_lines l ls) ∙ lines-concat_lines (l ∷ ls) [] h ∙ append-nil (l ∷ ls))

-- The check and the repair agree on what is in order.
first_misfit-none :
    (canonical : Line) (ls : List (Template × ℕ))
    → any_differs (yaml_lines canonical) ls ≡ false
    → first_misfit canonical ls ≡ none
unfolding first_misfit canonical_indent any_differs
first_misfit-none canonical [] h = refl
first_misfit-none canonical ((t, n) ∷ ls) h =
    one (find_template t (yaml_lines canonical)) (first_misfit-none canonical ls (ground arith))
      (ground arith)
  where
    one :
        (o : Option ℕ) {later : Option Misfit}
        → later ≡ none
        → differs n o ≡ false
        → misfit t n o later ≡ none
    one none e d = absurd (cc)
    one (some m) e d = ground arith

lines-IsPlain : (t : Line) → HasNoReturn t → All IsPlain (lines t)
unfolding lines
lines-IsPlain t h = ended-All (split_on 10 t) (split_on-All t h)

yaml_lines-lines : (t : Line) → yaml_lines t ≡ significant (lines t)
unfolding yaml_lines
yaml_lines-lines t = refl

-- What the repair of an `info.yml` writes passes the check of the indentation, which parses the
-- written file again, and needs no repair: for a text without carriage returns and of known keys
-- only, whose repair does not start with a byte order mark and still parses to a document of the
-- same canonical text.
pub fix_indentation-validate :
    (canonical_of : Line → Option Line) (original canonical fixed : Line)
    → canonical_of original ≡ some canonical
    → HasNoReturn original
    → all_known (yaml_lines canonical) (yaml_lines original) ≡ true
    → fix_indentation canonical_of original ≡ some fixed
    → canonical_of fixed ≡ some canonical
    → without_bom fixed ≡ fixed
    → (validate_yaml_indentation canonical_of fixed ≡ none)
      × (needs_reindent fixed canonical ≡ false)
unfolding fix_indentation validate_yaml_indentation needs_reindent reindent_yaml
fix_indentation-validate canonical_of original canonical fixed parsed plain known written again
      bom =
    let cs = yaml_lines canonical in
    let ls = map (reindent_line cs) (lines original) in
    let e : join ls ++ 10 ∷ [] ≡ fixed =
      written_by (needs_reindent (trim_newlines original) canonical) _
        (ap (fix_against original) (sym parsed) ∙ written) in
    let mended : any_differs cs (yaml_lines fixed) ≡ false =
      ap (λ x. any_differs cs (yaml_lines x)) (sym e)
      ∙ ap (any_differs cs) (
          yaml_lines-join ls
            (reindent_lines-IsPlain cs (lines original) (lines-IsPlain original plain)))
      ∙ lines_mended cs (lines original)
          (ap (all_known cs) (sym (yaml_lines-lines original)) ∙ known) in
    (
      ap (against_canonical fixed) again
          ∙ (ap (λ x. first_misfit canonical (yaml_lines x)) bom
              ∙ first_misfit-none canonical (yaml_lines fixed) mended),
      mended,
    )
  where
    written_by : (b : Bool) (t : Line) → (if b then some t else none) ≡ some fixed → t ≡ fixed
    written_by true t h = cc
    written_by false t h = absurd (cc)
