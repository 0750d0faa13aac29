-- ===== src/Pack/Index/Offsets.antt =====
-- The two offset tables of `write_v2_index` in pack.rs, in the order of the ids.
use sigmacatch.Pack.Index.{PackOffset, large_offsets, offset_words}
use sigmacatch.Prelude.{
  Bool-cases, List, Option, [], append_assoc, arith, false, get_elem?, if◌then◌else◌, inl, inr, leb,
  length, length-append, ltb, refl, some, subst, suc, true, zero, ℕ, ◌%◌, ◌++◌, ◌+◌, ◌-◌, ◌<◌, ◌^◌,
  ◌∷◌, ◌≡◌, ◌≤◌,
}

-- What an offset word stands for: itself, or an index into the large offsets.
abbrev pub resolve : ℕ → List ℕ → Option ℕ
resolve w large = if ltb w (2 ^ 31) then some w else get_elem? large (w - 2 ^ 31)

get_elem?-middle : (xs ys : List ℕ) (x : ℕ) → get_elem? (xs ++ x ∷ ys) (length xs) ≡ some x
get_elem?-middle [] ys x = refl
get_elem?-middle (z ∷ xs) ys x = get_elem?-middle xs ys x

pub length-offset_words :
    (large : List ℕ) (es : List PackOffset) → length (offset_words large es) ≡ length es
unfolding offset_words
length-offset_words large [] = refl
length-offset_words large (e ∷ es) =
    ground (arith, length-offset_words (large ++ e.offset ∷ []) es, length-offset_words large es)

pub length-large_offsets : (es : List PackOffset) → length (large_offsets es) ≤ length es
unfolding large_offsets
length-large_offsets [] = omega arith
length-large_offsets (e ∷ es) = ground (arith, length-large_offsets es)

pub record Found (large : List ℕ) (es : List PackOffset) (i offset : ℕ) : Type 0 where
  pub word : ℕ
  pub stored : get_elem? (offset_words large es) i ≡ some word
  pub fits : word < 2 ^ 32
  pub resolved : resolve word (large ++ large_offsets es) ≡ some offset

module _ (large : List ℕ) (e : PackOffset) (es : List PackOffset) where
  large_step :
      leb (2 ^ 31) e.offset ≡ true
      → (large ++ e.offset ∷ []) ++ large_offsets es ≡ large ++ large_offsets (e ∷ es)
  unfolding large_offsets
  large_step big = rw big (append_assoc large (e.offset ∷ []) (large_offsets es))

  Found-big : length large < 2 ^ 31 → leb (2 ^ 31) e.offset ≡ true → Found large (e ∷ es) 0 e.offset
  unfolding offset_words
  Found-big h big = record {
    word = 2 ^ 31 + length large % 2 ^ 31;
    stored = rw big refl;
    fits = omega arith;
    resolved =
        let off : ltb (2 ^ 31 + length large % 2 ^ 31) (2 ^ 31) ≡ false = ground arith in
        let at : 2 ^ 31 + length large % 2 ^ 31 - 2 ^ 31 ≡ length large = omega arith in
        rw off (
          rw at (
            rw (← large_step big)
              (rw append_assoc (get_elem?-middle large (large_offsets es) e.offset))));
  }

  Found-small : leb (2 ^ 31) e.offset ≡ false → Found large (e ∷ es) 0 e.offset
  unfolding offset_words
  Found-small small = record {
    word = e.offset;
    stored = rw small refl;
    fits = ground arith;
    resolved = ground arith;
  }

  Found-later_big :
      (i offset : ℕ)
      → leb (2 ^ 31) e.offset ≡ true
      → Found (large ++ e.offset ∷ []) es i offset
      → Found large (e ∷ es) (suc i) offset
  unfolding offset_words
  Found-later_big i offset big f = record {
    word = f.word;
    stored = rw big f.stored;
    fits = f.fits;
    resolved = rw (← large_step big) f.resolved;
  }

  Found-later_small :
      (i offset : ℕ)
      → leb (2 ^ 31) e.offset ≡ false
      → Found large es i offset
      → Found large (e ∷ es) (suc i) offset
  unfolding offset_words large_offsets
  Found-later_small i offset small f = record {
    word = f.word;
    stored = rw small f.stored;
    fits = f.fits;
    resolved = rw small f.resolved;
  }

-- Every entry has a word, which leads to its offset.
pub offset_words-Found :
    (large : List ℕ) (es : List PackOffset) (i : ℕ) (e : PackOffset)
    → get_elem? es i ≡ some e
    → length large + length es < 2 ^ 31
    → Found large es i e.offset
offset_words-Found large [] i e h n = absurd (cc)
offset_words-Found large (d ∷ es) zero e h n =
    let same : d ≡ e = cc in
    subst (λ x. Found large (d ∷ es) 0 x.offset) same
      (elim (Bool-cases (leb (2 ^ 31) d.offset)) [
        | inl big ↦ Found-big large d es (omega arith) big
        | inr small ↦ Found-small large d es small
      ])
offset_words-Found large (d ∷ es) (suc i) e h n = elim (Bool-cases (leb (2 ^ 31) d.offset)) [
  | inl big ↦ Found-later_big large d es i e.offset big (
      offset_words-Found (large ++ d.offset ∷ []) es i e h
        (omega (arith, length-append {0} large (d.offset ∷ []))))
  | inr small ↦
      Found-later_small large d es i e.offset small
        (offset_words-Found large es i e h (omega arith))
]
