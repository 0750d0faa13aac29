-- ===== src/Lines/Laws.antt =====
-- Indentation of lines, and what stands behind the blanks.
use sigmacatch.Text.{is_space}
use sigmacatch.Lines.{Line, indent_of, spaces_before, trim_left}
use sigmacatch.Prelude.{Bool-cases, [], arith, inl, inr, refl, suc, zero, ℕ, ◌+◌, ◌∷◌, ◌≡◌}

pub trim_left-trim_left : (l : Line) → trim_left (trim_left l) ≡ trim_left l
unfolding trim_left
trim_left-trim_left [] = refl
trim_left-trim_left (c ∷ l) = elim (Bool-cases (is_space c)) [
  | inl t ↦ rw t (trim_left-trim_left l)
  | inr f ↦ rw (f, f) refl
]

pub trim_left-spaces_before : (n : ℕ) (l : Line) → trim_left (spaces_before n l) ≡ trim_left l
unfolding trim_left spaces_before
trim_left-spaces_before zero l = refl
trim_left-spaces_before (suc n) l = trim_left-spaces_before n l

-- Behind its blanks a line has no blank.
pub indent_of-trim_left : (l : Line) → indent_of (trim_left l) ≡ 0
unfolding trim_left indent_of
indent_of-trim_left [] = refl
indent_of-trim_left (c ∷ l) = elim (Bool-cases (is_space c)) [
  | inl t ↦ rw t (indent_of-trim_left l)
  | inr f ↦ rw (f, f) refl
]

pub indent_of-spaces_before : (n : ℕ) (l : Line) → indent_of (spaces_before n l) ≡ n + indent_of l
unfolding indent_of spaces_before
indent_of-spaces_before zero l = omega arith
indent_of-spaces_before (suc n) l = omega (arith, indent_of-spaces_before n l)
