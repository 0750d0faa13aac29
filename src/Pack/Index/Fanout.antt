-- ===== src/Pack/Index/Fanout.antt =====
-- The fan-out table of `write_v2_index` in pack.rs against a count of the entries.
use sigmacatch.Pack.Index.{PackOffset, bump, add32, fanout, running, tally, zeros}
use sigmacatch.Prelude.{
  All, List, [], ap, arith, get_elem?, if◌then◌else◌, leb, length, refl, some, suc, zero, ℕ, ◌+◌,
  ◌<◌, ◌^◌, ◌∙◌, ◌∷◌, ◌≡◌,
}

-- The entries whose first byte is at most `i`.
unfoldable pub count_upto : ℕ → List PackOffset → ℕ
count_upto i [] = 0
count_upto i (e ∷ es) = (if leb e.oid.first i then 1 else 0) + count_upto i es

-- The sum of the counters up to an index, and of all of them.
prefix : List ℕ → ℕ → ℕ
prefix [] i = 0
prefix (c ∷ cs) zero = c
prefix (c ∷ cs) (suc i) = c + prefix cs i

total : List ℕ → ℕ
total [] = 0
total (c ∷ cs) = c + total cs

prefix-bump :
    (cs : List ℕ) (k i : ℕ)
    → k < length cs
    → total cs + 1 < 2 ^ 32
    → prefix (bump k cs) i ≡ (if leb k i then 1 else 0) + prefix cs i
unfolding prefix total
prefix-bump [] k i h t = elim h [ ]
prefix-bump (c ∷ cs) zero zero h t = ground arith
prefix-bump (c ∷ cs) zero (suc i) h t = ground arith
prefix-bump (c ∷ cs) (suc k) zero h t = ground arith
prefix-bump (c ∷ cs) (suc k) (suc i) h t = ground (arith, prefix-bump cs k i)

total-bump :
    (cs : List ℕ) (k : ℕ) → k < length cs → total cs + 1 < 2 ^ 32 → total (bump k cs) ≡ total cs + 1
unfolding total
total-bump [] k h t = elim h [ ]
total-bump (c ∷ cs) zero h t = ground arith
total-bump (c ∷ cs) (suc k) h t = ground (arith, total-bump cs k)

length-bump : (cs : List ℕ) (i : ℕ) → length (bump i cs) ≡ length cs
length-bump [] i = refl
length-bump (c ∷ cs) zero = refl
length-bump (c ∷ cs) (suc i) = ap suc (length-bump cs i)

abbrev pub IsByte : PackOffset → Type 0
IsByte e = e.oid.first < 256

prefix-tally :
    (es : List PackOffset) (cs : List ℕ) (i : ℕ)
    → length cs ≡ 256
    → All IsByte es
    → total cs + length es < 2 ^ 32
    → (prefix (tally es cs) i ≡ count_upto i es + prefix cs i)
      × (total (tally es cs) ≡ total cs + length es)
      × (length (tally es cs) ≡ 256)
unfolding count_upto
prefix-tally [] cs i n b t = (omega arith, omega arith, n)
prefix-tally (e ∷ es) cs i n (b, bs) t =
    let k = e.oid.first in
    let more = total-bump cs k (omega arith) (omega arith) in
    let up = prefix-bump cs k i (omega arith) (omega arith) in
    let (p, s, l) = prefix-tally es (bump k cs) i (length-bump cs k ∙ n) bs (omega arith) in
    (ground arith, omega arith, l)

get_elem?-running :
    (cs : List ℕ) (before i : ℕ)
    → i < length cs
    → before + total cs < 2 ^ 32
    → get_elem? (running before cs) i ≡ some (before + prefix cs i)
unfolding prefix total
get_elem?-running [] before i h t = elim h [ ]
get_elem?-running (c ∷ cs) before zero h t = ap some (omega arith)
get_elem?-running (c ∷ cs) before (suc i) h t =
    let small : add32 c before ≡ before + c = omega arith in
    rw small
      (get_elem?-running cs (before + c) i (omega arith) (omega arith) ∙ ap some (omega arith))

pub length-running : (cs : List ℕ) (before : ℕ) → length (running before cs) ≡ length cs
length-running [] before = refl
length-running (c ∷ cs) before = ap suc (length-running cs (add32 c before))

pub length-tally : (es : List PackOffset) (cs : List ℕ) → length (tally es cs) ≡ length cs
length-tally [] cs = refl
length-tally (e ∷ es) cs = length-tally es (bump e.oid.first cs) ∙ length-bump cs e.oid.first

prefix-zeros : (n i : ℕ) → prefix (zeros n) i ≡ 0
unfolding prefix
prefix-zeros zero i = refl
prefix-zeros (suc n) zero = refl
prefix-zeros (suc n) (suc i) = omega (arith, prefix-zeros n i)

total-zeros : (n : ℕ) → total (zeros n) ≡ 0
unfolding total
total-zeros zero = refl
total-zeros (suc n) = omega (arith, total-zeros n)

length-zeros : (n : ℕ) → length (zeros n) ≡ n
length-zeros zero = refl
length-zeros (suc n) = ap suc (length-zeros n)

pub length-fanout : (es : List PackOffset) → length (fanout es) ≡ 256
unfolding fanout
length-fanout es =
    length-running (tally es (zeros 256)) 0 ∙ (length-tally es (zeros 256) ∙ length-zeros 256)

-- With fewer than 2^32 entries, the word at each first byte of the fan-out table is the number of
-- entries whose first byte is at most that one.
pub fanout-count_upto :
    (es : List PackOffset) (i : ℕ)
    → i < 256
    → All IsByte es
    → length es < 2 ^ 32
    → get_elem? (fanout es) i ≡ some (count_upto i es)
unfolding fanout
fanout-count_upto es i h b t =
    let (p, s, l) =
      prefix-tally es (zeros 256) i (length-zeros 256) b (omega (arith, total-zeros 256)) in
    get_elem?-running (tally es (zeros 256)) 0 i (omega arith) (omega (arith, total-zeros 256))
    ∙ ap some (omega (arith, prefix-zeros 256 i))
