-- ===== src/Pack/Header/RoundTrip.antt =====
-- A reader of pack headers, written from the format, and the round trip with the encoder.
use sigmacatch.Prelude.{
  Bool-cases, List, Option, [], arith, false, if◌then◌else◌, inl, inr, ltb, none, refl, some, suc,
  zero, ℕ, ◌%◌, ◌*◌, ◌++◌, ◌+◌, ◌-◌, ◌/◌, ◌<◌, ◌==◌, ◌∷◌, ◌≡◌, ◌≤◌,
}
use sigmacatch.Pack.Header.{size_bytes, encode_pack_header}

abbrev scaled : ℕ → Option (ℕ × List ℕ) → Option (ℕ × List ℕ)
scaled low none = none
scaled low (some (high, rest)) = some (low + 128 * high, rest)

-- Little-endian groups of seven bits; a byte from 128 on says that more follow.
unfoldable pub read_size : List ℕ → Option (ℕ × List ℕ)
read_size [] = none
read_size (b ∷ bytes) =
    let more = scaled (b - 128) (read_size bytes) in if ltb b 128 then some (b, bytes) else more

abbrev with_low : ℕ → ℕ → Option (ℕ × List ℕ) → Option (ℕ × ℕ × List ℕ)
with_low t low none = none
with_low t low (some (high, rest)) = some (t, low + 16 * high, rest)

-- The type, the size, and the bytes behind the header.
unfoldable pub read_header : List ℕ → Option (ℕ × ℕ × List ℕ)
unfolding read_size
read_header [] = none
read_header (b ∷ bytes) =
    if ltb b 128
    then some (b / 16, b % 16, bytes)
    else with_low ((b - 128) / 16) (b % 16) (read_size bytes)

size_bytes-zero : (fuel : ℕ) → size_bytes fuel 0 ≡ []
unfolding size_bytes
size_bytes-zero zero = refl
size_bytes-zero (suc fuel) = refl

read_size-size_bytes :
    (fuel size : ℕ) (rest : List ℕ)
    → 0 < size
    → size ≤ fuel
    → read_size (size_bytes fuel size ++ rest) ≡ some (size, rest)
unfolding read_size size_bytes
read_size-size_bytes zero size rest h k = absurd (omega arith)
read_size-size_bytes (suc fuel) size rest h k =
    let some_left : (size == 0) ≡ false = ground arith in
    elim (Bool-cases (ltb 0 (size / 128))) [
      | inl more ↦
          rw (some_left, more) (ground (arith, read_size-size_bytes fuel (size / 128) rest))
      | inr last ↦
          let spent : size / 128 ≡ 0 = ground arith in
          rw (some_left, last, spent, size_bytes-zero) (ground arith)
    ]

-- Whatever follows, a header reads back as the type and the size that it was written for.
pub read_header-encode_pack_header :
    (t size : ℕ) (rest : List ℕ)
    → t < 8
    → read_header (encode_pack_header t size ++ rest) ≡ some (t, size, rest)
unfolding read_header encode_pack_header
read_header-encode_pack_header t size rest h =
    ground (arith, read_size-size_bytes (size / 16) (size / 16) rest)
