-- ===== src/Pack/Index/Words.antt =====
-- Words behind one another: their lengths, and reading the word at an index.
use sigmacatch.Pack.Index.{be32, be64, words}
use native.Mathlib.Nat.{zero-add}
use sigmacatch.Prelude.{
  List, Option, [], ap, arith, drop, get_elem?, length, none, some, suc, zero, ℕ, ◌*◌, ◌++◌, ◌+◌,
  ◌<◌, ◌^◌, ◌∙◌, ◌∷◌, ◌≡◌,
}

abbrev value32 : List ℕ → Option ℕ
value32 (a ∷ b ∷ c ∷ d ∷ _) = some (a * 2 ^ 24 + b * 2 ^ 16 + c * 2 ^ 8 + d)
value32 _ = none

-- The big-endian number at a position of a file.
unfoldable pub read32 : ℕ → List ℕ → Option ℕ
read32 at bytes = value32 (drop at bytes)

abbrev join : Option ℕ → Option ℕ → Option ℕ
join (some high) (some low) = some (high * 2 ^ 32 + low)
join _ _ = none

unfoldable pub read64 : ℕ → List ℕ → Option ℕ
unfolding read32
read64 at bytes = join (read32 at bytes) (read32 (at + 4) bytes)

pub length-words32 : (ws : List ℕ) → length (words be32 ws) ≡ 4 * length ws
length-words32 [] = omega arith
length-words32 (w ∷ ws) = omega (arith, length-words32 ws)

pub length-words64 : (ws : List ℕ) → length (words be64 ws) ≡ 8 * length ws
length-words64 [] = omega arith
length-words64 (w ∷ ws) = omega (arith, length-words64 ws)

pub drop-append_add {ℓ} :
    {A : Type ℓ} (xs ys : List A) (n : ℕ) → drop (length xs + n) (xs ++ ys) ≡ drop n ys
drop-append_add [] ys n = rw zero-add
drop-append_add (x ∷ xs) ys n =
    let e : suc (length xs) + n ≡ suc (length xs + n) = omega arith in
    rw e (drop-append_add xs ys n)

pub read32-append :
    (xs ys : List ℕ) (at n : ℕ) → at ≡ length xs + n → read32 at (xs ++ ys) ≡ read32 n ys
unfolding read32
read32-append xs ys at n e = rw e (rw drop-append_add)

pub read64-append :
    (xs ys : List ℕ) (at n : ℕ) → at ≡ length xs + n → read64 at (xs ++ ys) ≡ read64 n ys
unfolding read64
read64-append xs ys at n e =
    let later : at + 4 ≡ length xs + (n + 4) = omega arith in
    rw (read32-append xs ys at n e, read32-append xs ys (at + 4) (n + 4) later)

read32-be32 : (w : ℕ) (rest : List ℕ) → w < 2 ^ 32 → read32 0 (be32 w ++ rest) ≡ some w
unfolding read32
read32-be32 w rest h = ap some (omega arith)

pub read32-words :
    (ws rest : List ℕ) (i w : ℕ)
    → get_elem? ws i ≡ some w
    → w < 2 ^ 32
    → read32 (4 * i) (words be32 ws ++ rest) ≡ some w
read32-words [] rest i w e h = cc
read32-words (v ∷ ws) rest zero w e h =
    let same : v ≡ w = cc in rw same (read32-be32 w (words be32 ws ++ rest) h)
read32-words (v ∷ ws) rest (suc i) w e h =
    read32-append (be32 v) (words be32 ws ++ rest) (4 * suc i) (4 * i) (omega arith)
    ∙ read32-words ws rest i w e h

read64-be64 : (w : ℕ) (rest : List ℕ) → w < 2 ^ 64 → read64 0 (be64 w ++ rest) ≡ some w
unfolding read64
read64-be64 w rest h = ap some (omega arith)

pub read64-words :
    (ws rest : List ℕ) (i w : ℕ)
    → get_elem? ws i ≡ some w
    → w < 2 ^ 64
    → read64 (8 * i) (words be64 ws ++ rest) ≡ some w
read64-words [] rest i w e h = cc
read64-words (v ∷ ws) rest zero w e h =
    let same : v ≡ w = cc in rw same (read64-be64 w (words be64 ws ++ rest) h)
read64-words (v ∷ ws) rest (suc i) w e h =
    read64-append (be64 v) (words be64 ws ++ rest) (8 * suc i) (8 * i) (omega arith)
    ∙ read64-words ws rest i w e h
