-- ===== src/Auditd/RawFields.antt =====
-- `extract_raw_fields` of auditd.rs: the `key=value` pairs behind `): ` of audit lines, as bytes.
pub mod RoundTrip
use sigmacatch.Prelude.{
  List, Option, [], if◌then◌else◌, length, none, some, suc, zero, ℕ, ◌&&◌, ◌++◌, ◌==◌, ◌∷◌,
}

abbrev pub grow_first : ℕ → List (List ℕ) → List (List ℕ)
grow_first b [] = (b ∷ []) ∷ []
grow_first b (l ∷ ls) = (b ∷ l) ∷ ls

-- `lines.split(|&b| b == sep)`
unfoldable pub split_on : ℕ → List ℕ → List (List ℕ)
split_on sep [] = [] ∷ []
split_on sep (b ∷ bs) =
    let rest = split_on sep bs in if b == sep then [] ∷ rest else grow_first b rest

-- What stands behind the first `):`, if there is one.
unfoldable pub behind_stamp : List ℕ → Option (List ℕ)
behind_stamp [] = none
behind_stamp (b ∷ []) = none
behind_stamp (b ∷ c ∷ bs) =
    let later = behind_stamp (c ∷ bs) in if (b == b')') && (c == b':') then some bs else later

-- `while i < body.len() && body[i] == b' ' { i += 1 }`
unfoldable pub skip_spaces : List ℕ → List ℕ
skip_spaces [] = []
skip_spaces (b ∷ bs) = let rest = skip_spaces bs in if b == b' ' then rest else b ∷ bs

abbrev pub cons_left : ℕ → List ℕ × List ℕ → List ℕ × List ℕ
cons_left b (l, r) = (b ∷ l, r)

-- `while i < body.len() && body[i] != stop { i += 1 }`: what was passed, and what is left.
unfoldable pub span_until : ℕ → List ℕ → List ℕ × List ℕ
span_until stop [] = ([], [])
span_until stop (b ∷ bs) =
    let rest = cons_left b (span_until stop bs) in if b == stop then ([], b ∷ bs) else rest

abbrev pub with_value : List ℕ → List ℕ × List ℕ → Option (List ℕ × List ℕ × List ℕ)
with_value key (value, rest) = some (key, value, rest)

-- Behind the key: `none` at the end of the line, also right behind the `=`.
unfoldable pub after_key : List ℕ × List ℕ → Option (List ℕ × List ℕ × List ℕ)
unfolding span_until
after_key (key, []) = none
after_key (key, _ ∷ []) = none
after_key (key, _ ∷ v ∷ vs) = with_value key (span_until b' ' (v ∷ vs))

unfoldable pub at_key : List ℕ → Option (List ℕ × List ℕ × List ℕ)
unfolding after_key
at_key [] = none
at_key (b ∷ bs) = after_key (span_until b'=' (b ∷ bs))

-- One turn of the loop over the body: the key, the value and the rest, or `none` for a `break`.
unfoldable pub next_pair : List ℕ → Option (List ℕ × List ℕ × List ℕ)
unfolding skip_spaces at_key
next_pair body = at_key (skip_spaces body)

-- The loop; each turn takes a byte at least, so the length of the body is fuel enough.
unfoldable pub pairs_of : (fuel : ℕ) → List ℕ → List (List ℕ × List ℕ)
unfolding next_pair
pairs_of zero body = []
pairs_of (suc fuel) body = elim (next_pair body) [
  | none ↦ []
  | some (key, value, rest) ↦ (key, value) ∷ pairs_of fuel rest
]

-- The body of a line is what follows `): `, with its space.
unfoldable pub line_pairs : List ℕ → List (List ℕ × List ℕ)
unfolding behind_stamp pairs_of
line_pairs line = elim (behind_stamp line) [
  | none ↦ []
  | some [] ↦ []
  | some (b ∷ body) ↦ if b == b' ' then pairs_of (length body) body else []
]

-- The pairs of all lines in order; an empty line has none.
unfoldable pub lines_pairs : List (List ℕ) → List (List ℕ × List ℕ)
unfolding line_pairs
lines_pairs [] = []
lines_pairs (l ∷ ls) = line_pairs l ++ lines_pairs ls
