-- ===== src/Pack/Header.antt =====
-- `encode_pack_header` of pack.rs: a 3-bit type and a size in groups of seven bits.
pub mod RoundTrip
use Prim.Native.Nat.{bit_and, bit_or}
use sigmacatch.Prelude.{
  Bool, List, [], all_below, if◌then◌else◌, ltb, refl, suc, true, zero, ℕ, ◌%◌, ◌&&◌, ◌*◌, ◌+◌, ◌/◌,
  ◌==◌, ◌∷◌, ◌≡◌,
}

pub data ObjectKind : Type 0 where
  commit tree blob tag : ObjectKind

unfoldable pub kind_to_pack_type : ObjectKind → ℕ
kind_to_pack_type commit = 1
kind_to_pack_type tree = 2
kind_to_pack_type blob = 3
kind_to_pack_type tag = 4

-- `b | 0x80` for a byte `b` below 0x80
abbrev pub continued : ℕ → ℕ
continued b = b + 128

-- `while size > 0 { let b = size & 0x7f; size >>= 7; push(if size > 0 { b | 0x80 } else { b }) }`;
-- the fuel is the size, which falls in each round.
unfoldable pub size_bytes : (fuel size : ℕ) → List ℕ
size_bytes zero size = []
size_bytes (suc fuel) size =
    let rest = size_bytes fuel (size / 128) in
    if size == 0
    then []
    else (if ltb 0 (size / 128) then continued (size % 128) else size % 128) ∷ rest

-- The bytes that the call appends to the buffer. `(t & 7) << 4 | (size & 15)` has no common bits.
unfoldable pub encode_pack_header : (type_code payload_len : ℕ) → List ℕ
unfolding size_bytes
encode_pack_header type_code payload_len =
    let first = type_code % 8 * 16 + payload_len % 16 in
    let size = payload_len / 16 in
    if ltb 0 size then continued first ∷ size_bytes size size else first ∷ []

-- The sums above are the source's bit operations, for every type and low half of a size.
abbrev same_bits : ℕ → ℕ → Bool
same_bits t s =
    let first = bit_or (bit_and t 7 * 16) (bit_and s 15) in
    (first == t % 8 * 16 + s % 16) && (bit_or first 0x80 == continued first)

first_byte_bits : all_below 8 (λ t. all_below 16 (λ s. same_bits t s)) ≡ true
first_byte_bits = refl
