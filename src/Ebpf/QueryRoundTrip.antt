-- ===== src/Ebpf/QueryRoundTrip.antt =====
-- `parse_query_name` of ebpf_event.rs against queries that are written as RFC 1035 has them.
use Prim.Native.Nat.{bit_and}
use sigmacatch.Ebpf.Query.{cons_label, join_labels, name_of, parse_query_name, read_labels}
use sigmacatch.Prelude.{
  All, List, [], all_below_lem, ap, append_assoc, arith, drop-append, false, length, length-append,
  ltb, refl, some, suc, take-append, true, zero, ℕ, ◌*◌, ◌++◌, ◌+◌, ◌<◌, ◌==◌, ◌∙◌, ◌∷◌, ◌≡◌, ◌≤◌,
}

-- A label has 1 to 63 bytes.
abbrev pub IsLabel : List ℕ → Type 0
IsLabel l = (1 ≤ length l) × (length l < 64)

abbrev pub write_labels : List (List ℕ) → List ℕ
write_labels [] = 0 ∷ []
write_labels (l ∷ ls) = length l ∷ (l ++ write_labels ls)

no_pointer : (n : ℕ) → n < 64 → (bit_and n 0xC0 == 0) ≡ true
no_pointer n h = all_below_lem 64 (λ k. bit_and k 0xC0 == 0) n refl h

read_labels_step :
    (fuel : ℕ) (l rest : List ℕ)
    → IsLabel l
    → read_labels (suc fuel) (length l ∷ (l ++ rest)) ≡ cons_label l (read_labels fuel rest)
unfolding read_labels
read_labels_step fuel l rest (some_, few) =
    let positive : (length l == 0) ≡ false = ground arith in
    let enough : ltb (length (l ++ rest)) (length l) ≡ false =
      ground (arith, length-append {0} l rest) in
    rw (positive, no_pointer (length l) few, enough, take-append l rest, drop-append l rest) refl

append_head :
    (l rest more : List ℕ) → (length l ∷ (l ++ rest)) ++ more ≡ length l ∷ (l ++ (rest ++ more))
append_head l rest more = ap (λ x. length l ∷ x) (append_assoc l rest more)

read_labels-write_labels :
    (fuel : ℕ) (ls : List (List ℕ)) (rest : List ℕ)
    → All IsLabel ls
    → length ls < fuel
    → read_labels fuel (write_labels ls ++ rest) ≡ some ls
unfolding read_labels
read_labels-write_labels zero ls rest h few = absurd (omega arith)
read_labels-write_labels (suc fuel) [] rest h few = refl
read_labels-write_labels (suc fuel) (l ∷ ls) rest (p, h) few =
    ap (read_labels (suc fuel)) (append_head l (write_labels ls) rest)
    ∙ (read_labels_step fuel l (write_labels ls ++ rest) p
        ∙ ap (cons_label l) (read_labels-write_labels fuel ls rest h (omega arith)))

-- The header of a query: its id, the flags, the number of questions, and three more counts.
abbrev pub header : (id0 id1 f0 f1 q0 q1 : ℕ) → List ℕ
header id0 id1 f0 f1 q0 q1 = id0 ∷ id1 ∷ f0 ∷ f1 ∷ q0 ∷ q1 ∷ 0 ∷ 0 ∷ 0 ∷ 0 ∷ 0 ∷ 0 ∷ []

write_labels-length : (ls : List (List ℕ)) → 1 ≤ length (write_labels ls)
write_labels-length [] = omega arith
write_labels-length (l ∷ ls) = omega arith

module _ (lossy : List ℕ → List ℕ) where
  -- The name of a query with one to sixteen labels is read back, whatever follows it, if the flags
  -- say that it is a query and it has a question.
  pub parse_query_name-write_labels :
      (id0 id1 f0 f1 q0 q1 : ℕ) (l : List ℕ) (ls : List (List ℕ)) (rest : List ℕ)
      → bit_and (256 * f0 + f1) 0x8000 ≡ 0
      → 1 ≤ 256 * q0 + q1
      → All IsLabel (l ∷ ls)
      → length ls < 16
      → parse_query_name lossy (header id0 id1 f0 f1 q0 q1 ++ (write_labels (l ∷ ls) ++ rest))
        ≡ some (join_labels lossy (l ∷ ls))
  unfolding parse_query_name
  parse_query_name-write_labels id0 id1 f0 f1 q0 q1 l ls rest query question h few =
      let body = write_labels (l ∷ ls) ++ rest in
      let size = length-append {0} (write_labels (l ∷ ls)) rest in
      let long : ltb (length (header id0 id1 f0 f1 q0 q1 ++ body)) 13 ≡ false =
        ground (arith, length-append {0} (write_labels (l ∷ ls)) rest) in
      let asked : (256 * q0 + q1 == 0) ≡ false = ground arith in
      rw (long, query, asked)
        (ap (name_of lossy) (read_labels-write_labels 17 (l ∷ ls) rest h (omega arith)))
