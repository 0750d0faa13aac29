-- ===== src/Ebpf/Query.antt =====
-- `parse_query_name` of ebpf_event.rs. A position in the payload is what follows it.
use Prim.Native.Nat.{bit_and}
use sigmacatch.Prelude.{
  List, Option, [], drop, get_elem?, if◌then◌else◌, length, ltb, none, not, some, suc, take, zero,
  ℕ, ◌*◌, ◌++◌, ◌+◌, ◌==◌, ◌||◌, ◌∷◌,
}

abbrev pub cons_label : List ℕ → Option (List (List ℕ)) → Option (List (List ℕ))
cons_label l none = none
cons_label l (some ls) = some (l ∷ ls)

-- The loop over the labels. The fuel is what `parts.len() > 16` leaves: 17 rounds, of which the last
-- can only find the end.
unfoldable pub read_labels : (fuel : ℕ) → List ℕ → Option (List (List ℕ))
read_labels zero rest = none
read_labels (suc fuel) [] = none
read_labels (suc fuel) (label ∷ rest) =
    let more = read_labels fuel (drop label rest) in
    if label == 0
    then some []
    else (if not (bit_and label 0xC0 == 0) || ltb (length rest) label
        then none
        else cons_label (take label rest) more)

abbrev pub byte_or : Option ℕ → ℕ
byte_or none = 0
byte_or (some b) = b

-- `u16::from_be_bytes([payload[i], payload[i + 1]])`; the payload has 13 bytes at least.
abbrev pub word_at : ℕ → List ℕ → ℕ
word_at i payload = 256 * byte_or (get_elem? payload i) + byte_or (get_elem? payload (i + 1))

module _ (lossy : List ℕ → List ℕ) where
  -- `parts.join(".")`
  abbrev pub join_labels : List (List ℕ) → List ℕ
  join_labels [] = []
  join_labels (l ∷ []) = lossy l
  join_labels (l ∷ m ∷ ls) = lossy l ++ (46 ∷ join_labels (m ∷ ls))

  abbrev pub name_of : Option (List (List ℕ)) → Option (List ℕ)
  name_of none = none
  name_of (some []) = none
  name_of (some (l ∷ ls)) = some (join_labels (l ∷ ls))

  -- `parse_query_name`
  unfoldable pub parse_query_name : List ℕ → Option (List ℕ)
  unfolding read_labels
  parse_query_name payload =
      if ltb (length payload) 13
      then none
      else (if not (bit_and (word_at 2 payload) 0x8000 == 0)
          then none
          else (if word_at 4 payload == 0
              then none
              else name_of (read_labels 17 (drop 12 payload))))
