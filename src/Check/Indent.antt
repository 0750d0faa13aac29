-- ===== src/Check/Indent.antt =====
-- The check of the indentation of an `info.yml`, and its repair.
pub mod Repair
use sigmacatch.Lines.{
  Line, indent_of, is_empty_line, is_item, is_remark, spaces_before, strip_dashes, trim_left,
  trim_line,
}
use sigmacatch.Regression.TestsPath.{lines, join, texts_equal}
use sigmacatch.Prelude.{
  Bool, List, Option, [], false, if◌then◌else◌, map, none, not, some, true, ℕ, ◌&&◌, ◌++◌, ◌==◌,
  ◌||◌, ◌∷◌,
}

-- A key, and whether its line is an item of a list.
abbrev pub Template : Type 0
Template = Line × Bool

-- `body.split(':').next()`
abbrev pub before_colon : Line → Line
before_colon [] = []
before_colon (c ∷ l) = if c == 58 then [] else c ∷ before_colon l

-- The body of a line behind its blanks.
abbrev pub body_of : Line → Line
body_of t = if is_item t then trim_left (strip_dashes t) else t

abbrev pub keyed : Line → Bool → Option Template
keyed key item = if is_empty_line key then none else some (key, item)

-- `yaml_template`, of the line behind its blanks.
unfoldable pub template_of : Line → Option Template
unfolding trim_line trim_left strip_dashes
template_of t =
    if is_remark t then none else keyed (trim_line (before_colon (body_of t))) (is_item t)

unfoldable pub yaml_template : Line → Option Template
unfolding template_of trim_left
yaml_template line = template_of (trim_left line)

abbrev pub with_indent : ℕ → Option Template → List (Template × ℕ) → List (Template × ℕ)
with_indent n none rest = rest
with_indent n (some t) rest = (t, n) ∷ rest

unfoldable pub significant : List Line → List (Template × ℕ)
unfolding yaml_template indent_of
significant [] = []
significant (l ∷ ls) = with_indent (indent_of l) (yaml_template l) (significant ls)

unfoldable pub yaml_lines : Line → List (Template × ℕ)
unfolding significant lines
yaml_lines content = significant (lines content)

abbrev pub bool_equal : Bool → Bool → Bool
bool_equal true b = b
bool_equal false b = not b

abbrev pub same_template : Template → Template → Bool
same_template (k, i) (l, j) = texts_equal k l && bool_equal i j

abbrev pub find_template : Template → List (Template × ℕ) → Option ℕ
find_template t [] = none
find_template t ((u, n) ∷ ls) = if same_template u t then some n else find_template t ls

unfoldable pub canonical_indent : Line → Template → Option ℕ
unfolding yaml_lines
canonical_indent canonical t = find_template t (yaml_lines canonical)

-- What `validate_yaml_indentation` finds: a file that does not parse (or has no canonical text), or
-- first a line of another indentation, or of a key that is not expected.
pub data Misfit : Type 0 where
  cannot_parse : Misfit
  indentation unexpected : Template → Misfit

abbrev pub misfit : Template → ℕ → Option ℕ → Option Misfit → Option Misfit
misfit t n none later = some (unexpected t)
misfit t n (some m) later = if m == n then later else some (indentation t)

-- The loop of `validate_yaml_indentation`.
unfoldable pub first_misfit : Line → List (Template × ℕ) → Option Misfit
unfolding canonical_indent
first_misfit canonical [] = none
first_misfit canonical ((t, n) ∷ ls) =
    misfit t n (canonical_indent canonical t) (first_misfit canonical ls)

-- `'\u{feff}'`
abbrev pub without_bom : Line → Line
without_bom [] = []
without_bom (c ∷ l) = if c == 65279 then l else c ∷ l

abbrev pub against_canonical : Line → Option Line → Option Misfit
against_canonical raw none = some cannot_parse
against_canonical raw (some canonical) = first_misfit canonical (yaml_lines (without_bom raw))

-- `validate_yaml_indentation`, of the text of the file. `canonical_of` stands for `InfoYml::load` and
-- `canonical_yaml` of a file with that text; the mark is stripped for the lines only.
unfoldable pub validate_yaml_indentation :
    (canonical_of : Line → Option Line) → (raw : Line) → Option Misfit
unfolding first_misfit yaml_lines
validate_yaml_indentation canonical_of raw = against_canonical raw (canonical_of raw)

abbrev pub differs : ℕ → Option ℕ → Bool
differs n none = true
differs n (some m) = not (m == n)

unfoldable pub any_differs : List (Template × ℕ) → List (Template × ℕ) → Bool
any_differs canonical [] = false
any_differs canonical ((t, n) ∷ ls) =
    differs n (find_template t canonical) || any_differs canonical ls

unfoldable pub needs_reindent : (raw canonical : Line) → Bool
unfolding any_differs yaml_lines
needs_reindent raw canonical = any_differs (yaml_lines canonical) (yaml_lines raw)

abbrev pub or_zero : Option ℕ → ℕ
or_zero none = 0
or_zero (some n) = n

-- A line of `reindent_yaml`, by its template; `t` is the line behind its blanks.
abbrev pub reindented : List (Template × ℕ) → Line → Line → Option Template → Line
reindented canonical line t none = line
reindented canonical line t (some (key, item)) =
    let n = or_zero (find_template (key, item) canonical) in
    spaces_before n (if item then 45 ∷ 32 ∷ trim_left (strip_dashes t) else t)

unfoldable pub reindent_line : List (Template × ℕ) → Line → Line
unfolding spaces_before trim_left strip_dashes yaml_template
reindent_line canonical line = reindented canonical line (trim_left line) (yaml_template line)

unfoldable pub reindent_yaml : (raw canonical : Line) → Line
unfolding reindent_line yaml_lines lines
reindent_yaml raw canonical = join (map (reindent_line (yaml_lines canonical)) (lines raw))

-- `trim_end_matches('\n')`
abbrev pub unless_newline : ℕ → Line → Line
unless_newline c [] = if c == 10 then [] else c ∷ []
unless_newline c (d ∷ l) = c ∷ d ∷ l

unfoldable pub trim_newlines : Line → Line
trim_newlines [] = []
trim_newlines (c ∷ l) = unless_newline c (trim_newlines l)

abbrev pub fix_against : Line → Option Line → Option Line
fix_against original none = none
fix_against original (some canonical) =
    if needs_reindent (trim_newlines original) canonical
    then some (reindent_yaml original canonical ++ 10 ∷ [])
    else none

-- The repair of an `info.yml` in `fix_json_newlines`: what is written, if anything.
unfoldable pub fix_indentation :
    (canonical_of : Line → Option Line) → (original : Line) → Option Line
unfolding needs_reindent reindent_yaml trim_newlines
fix_indentation canonical_of original = fix_against original (canonical_of original)
