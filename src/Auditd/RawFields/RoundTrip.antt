-- ===== src/Auditd/RawFields/RoundTrip.antt =====
-- `extract_raw_fields` of auditd.rs against pairs that are written out as an audit line has them.
use sigmacatch.Auditd.RawFields.{
  cons_left, next_pair, span_until, at_key, with_value, after_key, behind_stamp, line_pairs,
  pairs_of,
}
use sigmacatch.Prelude.{
  ==_refl, All, List, [], ap, append-nil, arith, false, length, length-append, map, refl, some, suc,
  sym, zero, ℕ, ◌++◌, ◌==◌, ◌∙◌, ◌∷◌, ◌≡◌, ◌≢◌, ◌≤◌,
}

abbrev pub Without : ℕ → List ℕ → Type 0
Without stop = All (λ b. b ≢ stop)

span_until_stop :
    (stop : ℕ) (xs rest : List ℕ)
    → Without stop xs
    → span_until stop (xs ++ stop ∷ rest) ≡ (xs, stop ∷ rest)
unfolding span_until
span_until_stop stop [] rest h = rw (==_refl stop)
span_until_stop stop (x ∷ xs) rest (n, h) =
    let other : (x == stop) ≡ false = ground arith in
    rw other (ap (cons_left x) (span_until_stop stop xs rest h))

span_until_end : (stop : ℕ) (xs : List ℕ) → Without stop xs → span_until stop xs ≡ (xs, [])
unfolding span_until
span_until_end stop [] h = refl
span_until_end stop (x ∷ xs) (n, h) =
    let other : (x == stop) ≡ false = ground arith in
    rw other (ap (cons_left x) (span_until_end stop xs h))

-- A key is not empty, does not begin with a space and has no `=`; a value is not empty and has no
-- space.
pub record IsPair (p : (ℕ × List ℕ) × (ℕ × List ℕ)) : Type 0 where
  pub start : p.0.0 ≢ b' '
  pub key_start : p.0.0 ≢ b'='
  pub key : Without b'=' p.0.1
  pub value_start : p.1.0 ≢ b' '
  pub value : Without b' ' p.1.1

abbrev pub key_of : (ℕ × List ℕ) × (ℕ × List ℕ) → List ℕ
key_of p = p.0.0 ∷ p.0.1

abbrev pub value_of : (ℕ × List ℕ) × (ℕ × List ℕ) → List ℕ
value_of p = p.1.0 ∷ p.1.1

-- `key=value`, one space between the pairs.
unfoldable pub write_pairs : List ((ℕ × List ℕ) × (ℕ × List ℕ)) → List ℕ
write_pairs [] = []
write_pairs (p ∷ []) = key_of p ++ b'=' ∷ value_of p
write_pairs (p ∷ q ∷ ps) = key_of p ++ b'=' ∷ (value_of p ++ b' ' ∷ write_pairs (q ∷ ps))

unskipped : (b : ℕ) (bs : List ℕ) → b ≢ b' ' → next_pair (b ∷ bs) ≡ at_key (b ∷ bs)
unfolding next_pair
unskipped b bs n = let other : (b == b' ') ≡ false = ground arith in rw other

at_key_cut :
    (p : (ℕ × List ℕ) × (ℕ × List ℕ)) (tail bs : List ℕ)
    → span_until b'=' (key_of p ++ bs) ≡ (key_of p, b'=' ∷ (value_of p ++ tail))
    → at_key (key_of p ++ bs) ≡ with_value (key_of p) (span_until b' ' (value_of p ++ tail))
unfolding at_key
at_key_cut p tail bs cut = ap after_key cut

next_pair_lem :
    (p : (ℕ × List ℕ) × (ℕ × List ℕ)) (tail rest : List ℕ)
    → IsPair p
    → span_until b' ' (value_of p ++ tail) ≡ (value_of p, rest)
    → next_pair (key_of p ++ b'=' ∷ (value_of p ++ tail)) ≡ some (key_of p, value_of p, rest)
next_pair_lem p tail rest ok e =
    let body = key_of p ++ b'=' ∷ (value_of p ++ tail) in
    let skipped : next_pair body ≡ at_key body =
      unskipped p.0.0 (p.0.1 ++ b'=' ∷ (value_of p ++ tail)) ok.start in
    let cut : span_until b'=' body ≡ (key_of p, b'=' ∷ (value_of p ++ tail)) =
      span_until_stop b'=' (key_of p) (value_of p ++ tail) (ok.key_start, ok.key) in
    skipped ∙ (at_key_cut p tail (b'=' ∷ (value_of p ++ tail)) cut ∙ ap (with_value (key_of p)) e)

pairs_of_space : (fuel : ℕ) (rest : List ℕ) → pairs_of fuel (b' ' ∷ rest) ≡ pairs_of fuel rest
unfolding pairs_of
pairs_of_space zero rest = refl
pairs_of_space (suc fuel) rest = refl

pairs_of_next :
    (fuel : ℕ) (body key value rest : List ℕ)
    → next_pair body ≡ some (key, value, rest)
    → pairs_of (suc fuel) body ≡ (key, value) ∷ pairs_of fuel rest
unfolding pairs_of
pairs_of_next fuel body key value rest e = rw (e, pairs_of)

pairs_of_nil : (fuel : ℕ) → pairs_of fuel [] ≡ []
unfolding pairs_of
pairs_of_nil zero = refl
pairs_of_nil (suc fuel) = refl

abbrev pub written : (ℕ × List ℕ) × (ℕ × List ℕ) → List ℕ × List ℕ
written p = (key_of p, value_of p)

pairs_of-write_pairs :
    (fuel : ℕ) (ps : List ((ℕ × List ℕ) × (ℕ × List ℕ)))
    → All IsPair ps
    → length ps ≤ fuel
    → pairs_of fuel (write_pairs ps) ≡ map written ps
unfolding write_pairs
pairs_of-write_pairs fuel [] ok h = pairs_of_nil fuel
pairs_of-write_pairs zero (p ∷ ps) ok h = absurd (omega arith)
pairs_of-write_pairs (suc fuel) (p ∷ []) (ok, _) h =
    let whole = span_until_end b' ' (value_of p) (ok.value_start, ok.value) in
    let e = next_pair_lem p [] [] ok (ap (span_until b' ') (append-nil (value_of p)) ∙ whole) in
    ap (λ l. pairs_of (suc fuel) (key_of p ++ b'=' ∷ l)) (sym (append-nil (value_of p)))
    ∙ (pairs_of_next fuel (key_of p ++ b'=' ∷ (value_of p ++ [])) (key_of p) (value_of p) [] e
        ∙ ap (λ l. written p ∷ l) (pairs_of_nil fuel))
pairs_of-write_pairs (suc fuel) (p ∷ q ∷ ps) (ok, oks) h =
    let later = write_pairs (q ∷ ps) in
    let cut = span_until_stop b' ' (value_of p) later (ok.value_start, ok.value) in
    let e = next_pair_lem p (b' ' ∷ later) (b' ' ∷ later) ok cut in
    pairs_of_next fuel (write_pairs (p ∷ q ∷ ps)) (key_of p) (value_of p) (b' ' ∷ later) e
    ∙ ap (λ l. written p ∷ l)
        (pairs_of_space fuel later ∙ pairs_of-write_pairs fuel (q ∷ ps) oks (omega arith))

length-write_pairs : (ps : List ((ℕ × List ℕ) × (ℕ × List ℕ))) → length ps ≤ length (write_pairs ps)
unfolding write_pairs
length-write_pairs [] = omega arith
length-write_pairs (p ∷ []) = omega arith
length-write_pairs (p ∷ q ∷ ps) =
    let later = write_pairs (q ∷ ps) in
    omega (
      arith,
      length-append {0} p.0.1 (b'=' ∷ (value_of p ++ b' ' ∷ later)),
      length-append {0} p.1.1 (b' ' ∷ later),
      length-write_pairs (q ∷ ps),
    )

behind_stamp_lem :
    (stamp rest : List ℕ)
    → Without b')' stamp
    → behind_stamp (stamp ++ b')' ∷ b':' ∷ rest) ≡ some rest
unfolding behind_stamp
behind_stamp_lem [] rest h = refl
behind_stamp_lem (b ∷ []) rest (n, h) =
    let other : (b == b')') ≡ false = ground arith in rw other refl
behind_stamp_lem (b ∷ c ∷ bs) rest (n, h) =
    let other : (b == b')') ≡ false = ground arith in rw other (behind_stamp_lem (c ∷ bs) rest h)

-- A line that holds a stamp without `)`, then `): ` and the pairs with one space between them,
-- reads back as exactly those pairs, in order.
pub line_pairs-write_pairs :
    (stamp : List ℕ) (ps : List ((ℕ × List ℕ) × (ℕ × List ℕ)))
    → Without b')' stamp
    → All IsPair ps
    → line_pairs (stamp ++ b')' ∷ b':' ∷ b' ' ∷ write_pairs ps) ≡ map written ps
unfolding line_pairs
line_pairs-write_pairs stamp ps h ok =
    rw (behind_stamp_lem stamp (b' ' ∷ write_pairs ps) h, line_pairs)
      (pairs_of-write_pairs (length (write_pairs ps)) ps ok (length-write_pairs ps))
