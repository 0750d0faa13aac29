-- ===== src/Event/Decimal.antt =====
-- `str::parse::<u64>` and `u64::to_string` of the standard library.
use Prim.Native.Char.{code}
use Prim.Native.String.{[], ◌∷◌, ◌++◌}
use sigmacatch.Prelude.{
  Option, String, if◌then◌else◌, leb, ltb, none, refl, some, suc, zero, ℕ, ◌%◌, ◌&&◌, ◌*◌, ◌+◌, ◌-◌,
  ◌/◌, ◌==◌, ◌^◌, ◌≡◌,
}

-- The digits that are left, and the number so far; `none` on another character or on overflow.
unfoldable pub parse_digits : ℕ → String → Option ℕ
parse_digits n [] = some n
parse_digits n (c ∷ s) =
    let d = code c in
    let n' = n * 10 + (d - 48) in
    let rest = parse_digits n' s in if leb 48 d && leb d 57 && ltb n' (2 ^ 64) then rest else none

-- A sign `+` is accepted; no digit is an error.
unfoldable pub parse_u64 : String → Option ℕ
unfolding parse_digits
parse_u64 [] = none
parse_u64 (c ∷ []) = parse_digits 0 (c ∷ [])
parse_u64 (c ∷ d ∷ s) =
    if code c == b'+' then parse_digits 0 (d ∷ s) else parse_digits 0 (c ∷ d ∷ s)

parse_u64_tests :
    (parse_u64 "4688" ≡ some 4688)
    × (parse_u64 "+7" ≡ some 7)
    × (parse_u64 "+" ≡ none)
    × (parse_u64 "" ≡ none)
    × (parse_u64 "18446744073709551616" ≡ none)
    × (parse_u64 "1x" ≡ none)
unfolding parse_u64
parse_u64_tests = (refl, refl, refl, refl, refl, refl)

abbrev pub digit : ℕ → String
digit n =
    if n == 0
    then "0"
    else if n == 1
    then "1"
    else if n == 2
    then "2"
    else if n == 3
    then "3"
    else if n == 4
    then "4"
    else if n == 5
    then "5"
    else if n == 6
    then "6"
    else if n == 7
    then "7"
    else if n == 8
    then "8"
    else "9"

-- The digits of `n` before those of `acc`. 20 steps are enough below `2 ^ 64`.
unfoldable pub decimal : ℕ → ℕ → String → String
decimal zero n acc = acc
decimal (suc k) n acc =
    let text = digit (n % 10) ++ acc in
    let more = decimal k (n / 10) text in if ltb n 10 then text else more

unfoldable pub u64_to_string : ℕ → String
unfolding decimal
u64_to_string n = decimal 20 n ""

u64_to_string_tests :
    (u64_to_string 0 ≡ "0")
    × (u64_to_string 4104 ≡ "4104")
    × (u64_to_string 18446744073709551615 ≡ "18446744073709551615")
unfolding u64_to_string
u64_to_string_tests = (refl, refl, refl)

-- `str::parse::<i64>` of a text with a sign `-`: the number below it.
unfoldable pub parse_negative : String → Option ℕ
unfolding parse_digits
parse_negative [] = none
parse_negative (c ∷ []) = none
parse_negative (c ∷ d ∷ s) =
    if code c == b'-'
    then elim (parse_digits 0 (d ∷ s)) [
      | none ↦ none
      | some n ↦ if leb n (2 ^ 63) then some n else none
    ]
    else none
