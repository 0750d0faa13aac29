-- ===== src/Regression/TestsPath.antt =====
-- `update_regression_tests_path` of regression/mod.rs, as a function of the text of a rule's file.
pub mod Laws
use sigmacatch.Auditd.RawFields.{split_on}
use sigmacatch.Prelude.{
  Bool, List, Option, [], any, false, if◌then◌else◌, keep, none, not, some, true, ℕ, ◌&&◌, ◌++◌,
  ◌==◌, ◌∷◌,
}

abbrev pub Text : Type 0
Text = List ℕ

abbrev pub strip_return : Text → Text
strip_return [] = []
strip_return (c ∷ []) = if c == 13 then [] else c ∷ []
strip_return (c ∷ d ∷ cs) = c ∷ strip_return (d ∷ cs)

-- The pieces between newlines as lines: behind the last newline there is a line only if it has text.
abbrev pub ended : List Text → List Text
ended [] = []
ended ([] ∷ []) = []
ended ((c ∷ cs) ∷ []) = (c ∷ cs) ∷ []
ended (l ∷ m ∷ ls) = strip_return l ∷ ended (m ∷ ls)

-- `str::lines`
unfoldable pub lines : Text → List Text
unfolding split_on
lines t = ended (split_on 10 t)

abbrev pub join : List Text → Text
join [] = []
join (l ∷ []) = l
join (l ∷ m ∷ ls) = l ++ (10 ∷ join (m ∷ ls))

abbrev pub ends_with_newline : Text → Bool
ends_with_newline [] = false
ends_with_newline (c ∷ []) = c == 10
ends_with_newline (c ∷ d ∷ cs) = ends_with_newline (d ∷ cs)

abbrev pub texts_equal : Text → Text → Bool
texts_equal [] [] = true
texts_equal (a ∷ s) (b ∷ t) = (a == b) && texts_equal s t
texts_equal _ _ = false

abbrev is_prefix : Text → Text → Bool
is_prefix [] t = true
is_prefix (c ∷ p) [] = false
is_prefix (c ∷ p) (d ∷ t) = (c == d) && is_prefix p t

-- The newline that is pushed behind a text that has none.
abbrev pub terminated : Text → Text
terminated [] = []
terminated (c ∷ cs) = if ends_with_newline (c ∷ cs) then c ∷ cs else (c ∷ cs) ++ 10 ∷ []

-- The key `regression_tests_path:` and Unicode's white space are parameters here.
module _ (key : Text) (is_whitespace : ℕ → Bool) where
  abbrev trim_start : Text → Text
  trim_start [] = []
  trim_start (c ∷ cs) = let rest = trim_start cs in if is_whitespace c then rest else c ∷ cs

  abbrev or_blank : ℕ → Text → Text
  or_blank c [] = if is_whitespace c then [] else c ∷ []
  or_blank c (d ∷ ds) = c ∷ d ∷ ds

  abbrev trim_end : Text → Text
  trim_end [] = []
  trim_end (c ∷ cs) = or_blank c (trim_end cs)

  -- `str::trim`
  abbrev pub trim : Text → Text
  trim t = trim_end (trim_start t)

  abbrev pub expected_line : Text → Text
  expected_line tests_path = key ++ 32 ∷ tests_path

  abbrev pub is_expected : Text → Text → Bool
  is_expected tests_path l = texts_equal (trim l) (expected_line tests_path)

  abbrev pub is_annotation : Text → Bool
  is_annotation l = is_prefix key (trim l)

  -- The text to write, or `none` where the line is there already.
  unfoldable pub updated : Text → Text → Option Text
  unfolding lines
  updated tests_path content =
      if any (is_expected tests_path) (lines content)
      then none
      else some (
          terminated (join (keep (λ l. not (is_annotation l)) (lines content)))
          ++ (expected_line tests_path ++ 10 ∷ []))
