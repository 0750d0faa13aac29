-- ===== src/Check/Newlines/Repair.antt =====
-- The repair of the last newline.
use sigmacatch.Check.Indent.{trim_newlines, unless_newline}
use sigmacatch.Check.Newlines.{
  Fault, byte_before_last, fix_newlines, is_fault, is_newline, is_nil, last_byte, newline_fault,
}
use sigmacatch.Prelude.{
  Bool-cases, List, Option, [], ap, arith, false, if◌then◌else◌, inl, inr, none, refl, some, ℕ,
  ◌++◌, ◌==◌, ◌∙◌, ◌∷◌, ◌≡◌,
}

last_byte-append : (bs : List ℕ) → last_byte (bs ++ 10 ∷ []) ≡ some 10
last_byte-append [] = refl
last_byte-append (b ∷ []) = refl
last_byte-append (b ∷ c ∷ bs) = last_byte-append (c ∷ bs)

byte_before_last-append : (bs : List ℕ) → byte_before_last (bs ++ 10 ∷ []) ≡ last_byte bs
byte_before_last-append [] = refl
byte_before_last-append (b ∷ []) = refl
byte_before_last-append (b ∷ c ∷ []) = refl
byte_before_last-append (b ∷ c ∷ d ∷ bs) = byte_before_last-append (c ∷ d ∷ bs)

last_byte-unless_newline :
    (c : ℕ) (l : List ℕ)
    → is_newline (last_byte l) ≡ false
    → is_newline (last_byte (unless_newline c l)) ≡ false
last_byte-unless_newline c [] h = ground arith
last_byte-unless_newline c (d ∷ l) h = h

last_byte-trim_newlines : (bs : List ℕ) → is_newline (last_byte (trim_newlines bs)) ≡ false
unfolding trim_newlines
last_byte-trim_newlines [] = refl
last_byte-trim_newlines (b ∷ bs) =
    last_byte-unless_newline b (trim_newlines bs) (last_byte-trim_newlines bs)

trim_newlines-append : (bs : List ℕ) → trim_newlines (bs ++ 10 ∷ []) ≡ trim_newlines bs
unfolding trim_newlines
trim_newlines-append [] = refl
trim_newlines-append (b ∷ bs) = ap (unless_newline b) (trim_newlines-append bs)

trim_newlines-unless_newline :
    (c : ℕ) (l : List ℕ)
    → trim_newlines l ≡ l
    → trim_newlines (unless_newline c l) ≡ unless_newline c l
unfolding trim_newlines
trim_newlines-unless_newline c [] h = elim (Bool-cases (c == 10)) [
  | inl t ↦ rw t refl
  | inr f ↦ rw (f, f) refl
]
trim_newlines-unless_newline c (d ∷ l) h = ap (unless_newline c) h

trim_newlines_twice : (bs : List ℕ) → trim_newlines (trim_newlines bs) ≡ trim_newlines bs
unfolding trim_newlines
trim_newlines_twice [] = refl
trim_newlines_twice (b ∷ bs) =
    trim_newlines-unless_newline b (trim_newlines bs) (trim_newlines_twice bs)

newline_fault-append :
    (bs : List ℕ) → is_newline (last_byte bs) ≡ false → newline_fault (bs ++ 10 ∷ []) ≡ none
unfolding newline_fault
newline_fault-append bs h = rw (last_byte-append bs, byte_before_last-append bs, h) refl

-- Of a file that is not empty, the repair leaves one newline at the end and all that stands before
-- the newlines; a file that was in order is left as it is, so a second repair changes nothing.
pub fix_newlines_lem :
    (b : ℕ) (bs : List ℕ)
    → (let fixed = fix_newlines (b ∷ bs) in
        (newline_fault fixed ≡ none)
        × (trim_newlines fixed ≡ trim_newlines (b ∷ bs))
        × (fix_newlines fixed ≡ fixed))
unfolding fix_newlines
fix_newlines_lem b bs = by_fault (newline_fault (b ∷ bs)) refl
  where
    in_order :
        (l : List ℕ)
        → newline_fault l ≡ none
        → (if is_nil l
            then l
            else if is_fault (newline_fault l)
            then trim_newlines l ++ 10 ∷ []
            else l)
          ≡ l
    in_order [] h = refl
    in_order (c ∷ l) h = rw h refl

    by_fault :
        (o : Option Fault)
        → newline_fault (b ∷ bs) ≡ o
        → (let fixed = if is_fault o then trim_newlines (b ∷ bs) ++ 10 ∷ [] else b ∷ bs in
            (newline_fault fixed ≡ none)
            × (trim_newlines fixed ≡ trim_newlines (b ∷ bs))
            × ((if is_nil fixed
                  then fixed
                  else if is_fault (newline_fault fixed)
                  then trim_newlines fixed ++ 10 ∷ []
                  else fixed)
                ≡ fixed))
    by_fault none e = (e, refl, in_order (b ∷ bs) e)
    by_fault (some f) e =
        let t = trim_newlines (b ∷ bs) in
        let fine = newline_fault-append t (last_byte-trim_newlines (b ∷ bs)) in
        (fine, trim_newlines-append t ∙ trim_newlines_twice (b ∷ bs), in_order (t ++ 10 ∷ []) fine)
