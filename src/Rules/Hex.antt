-- ===== src/Rules/Hex.antt =====
-- `to_hex` of rule/mod.rs, which writes the digests of the fingerprint.
use sigmacatch.Prelude.{
  All, Bool, List, Option, [], all_below_lem, ap, arith, false, get_elem?, if◌then◌else◌, leb, none,
  refl, some, true, ℕ, ◌%◌, ◌&&◌, ◌*◌, ◌+◌, ◌-◌, ◌/◌, ◌<◌, ◌==◌, ◌∷◌, ◌≡◌,
}

-- `b"0123456789abcdef"`
abbrev pub hex : List ℕ
hex = 48 ∷ 49 ∷ 50 ∷ 51 ∷ 52 ∷ 53 ∷ 54 ∷ 55 ∷ 56 ∷ 57 ∷ 97 ∷ 98 ∷ 99 ∷ 100 ∷ 101 ∷ 102 ∷ []

-- An index into the table; the source panics out of range, which a digit below 16 is not.
abbrev char_or : Option ℕ → ℕ
char_or none = 0
char_or (some c) = c

unfoldable pub hex_digit : ℕ → ℕ
hex_digit d = char_or (get_elem? hex d)

unfoldable pub to_hex : List ℕ → List ℕ
unfolding hex_digit
to_hex [] = []
to_hex (b ∷ bs) = hex_digit (b / 16) ∷ hex_digit (b % 16) ∷ to_hex bs

-- Reading a digit back: `0` to `9` and `a` to `f`.
unfoldable pub digit_value : ℕ → Option ℕ
digit_value c =
    if leb 48 c && leb c 57
    then some (c - 48)
    else (if leb 97 c && leb c 102 then some (c - 87) else none)

abbrev byte_of : Option ℕ → Option ℕ → Option (List ℕ) → Option (List ℕ)
byte_of (some hi) (some lo) (some rest) = some ((16 * hi + lo) ∷ rest)
byte_of none _ _ = none
byte_of (some hi) none _ = none
byte_of (some hi) (some lo) none = none

-- Pairs of digits as bytes, with no regard to `to_hex`.
unfoldable pub from_hex : List ℕ → Option (List ℕ)
unfolding digit_value
from_hex [] = some []
from_hex (c ∷ []) = none
from_hex (c ∷ d ∷ cs) = byte_of (digit_value c) (digit_value d) (from_hex cs)

abbrev reads_as : Option ℕ → ℕ → Bool
reads_as none d = false
reads_as (some e) d = e == d

reads_as_lem : (o : Option ℕ) (d : ℕ) → reads_as o d ≡ true → o ≡ some d
reads_as_lem none d h = absurd (cc)
reads_as_lem (some e) d h = ap some (ground arith)

digit_value-hex_digit : (d : ℕ) → d < 16 → digit_value (hex_digit d) ≡ some d
unfolding digit_value hex_digit
digit_value-hex_digit d h =
    reads_as_lem (digit_value (hex_digit d)) d
      (all_below_lem 16 (λ e. reads_as (digit_value (hex_digit e)) e) d refl h)

-- The text of some bytes, read as pairs of digits, gives the bytes back: different digests have
-- different texts.
pub from_hex-to_hex : (bs : List ℕ) → All (λ b. b < 256) bs → from_hex (to_hex bs) ≡ some bs
unfolding from_hex to_hex
from_hex-to_hex [] h = refl
from_hex-to_hex (b ∷ bs) (small, h) =
    rw
      (
        digit_value-hex_digit (b / 16) (omega arith),
        digit_value-hex_digit (b % 16) (omega arith),
        from_hex-to_hex bs h,
      )
      (let e : 16 * (b / 16) + b % 16 ≡ b = omega arith in ap (λ x. some (x ∷ bs)) e)
