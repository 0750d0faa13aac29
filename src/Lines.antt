-- ===== src/Lines.antt =====
-- Lines of a text as lists of code points: their leading blanks and what stands behind them.
pub mod Laws
use sigmacatch.Text.{is_space}
use sigmacatch.Prelude.{
  Bool, List, [], false, if◌then◌else◌, ltb, suc, true, zero, ℕ, ◌&&◌, ◌+◌, ◌==◌, ◌||◌, ◌∷◌,
}

abbrev pub Line : Type 0
Line = List ℕ

-- `str::trim_start`
unfoldable pub trim_left : Line → Line
trim_left [] = []
trim_left (c ∷ l) = let rest = trim_left l in if is_space c then rest else c ∷ l

abbrev pub unless_space : ℕ → Line → Line
unless_space c [] = if is_space c then [] else c ∷ []
unless_space c (d ∷ l) = c ∷ d ∷ l

-- `str::trim_end`, `str::trim`
unfoldable pub trim_right : Line → Line
trim_right [] = []
trim_right (c ∷ l) = unless_space c (trim_right l)

unfoldable pub trim_line : Line → Line
unfolding trim_left trim_right
trim_line l = trim_right (trim_left l)

-- The bytes of a character in UTF-8.
abbrev pub utf8_width : ℕ → ℕ
utf8_width c = if ltb c 128 then 1 else (if ltb c 2048 then 2 else (if ltb c 65536 then 3 else 4))

-- `line.len() - line.trim_start().len()`
unfoldable pub indent_of : Line → ℕ
indent_of [] = 0
indent_of (c ∷ l) = let rest = indent_of l in if is_space c then utf8_width c + rest else 0

-- `" ".repeat(n)` before a line.
unfoldable pub spaces_before : ℕ → Line → Line
spaces_before zero l = l
spaces_before (suc n) l = 32 ∷ spaces_before n l

-- `trim_start_matches('-')`
unfoldable pub strip_dashes : Line → Line
strip_dashes [] = []
strip_dashes (c ∷ l) = let rest = strip_dashes l in if c == 45 then rest else c ∷ l

abbrev pub is_empty_line : Line → Bool
is_empty_line [] = true
is_empty_line (c ∷ l) = false

abbrev pub starts_with_char : ℕ → Line → Bool
starts_with_char n [] = false
starts_with_char n (c ∷ l) = c == n

-- A line that is empty or a comment, behind its blanks.
abbrev pub is_remark : Line → Bool
is_remark l = is_empty_line l || starts_with_char 35 l

-- `t == "-" || t.starts_with("- ")`
abbrev pub is_item : Line → Bool
is_item [] = false
is_item (c ∷ []) = c == 45
is_item (c ∷ d ∷ l) = (c == 45) && (d == 32)
