-- ===== src/Pack/Examples.antt =====
-- The pack and its index at concrete inputs.
use mathlib.Core.List.{Perm}
use sigmacatch.Pack.Header.{blob, encode_pack_header, kind_to_pack_type}
use sigmacatch.Pack.Header.RoundTrip.{read_header, read_header-encode_pack_header}
use sigmacatch.Pack.Index.{PackOffset, fanout, sort_entries, write_v2_index}
use sigmacatch.Pack.Index.Fanout.{count_upto, fanout-count_upto}
use sigmacatch.Pack.Index.Offsets.{Found, offset_words-Found}
use sigmacatch.Pack.Index.Sorting.{IsSorted, sort_entries_lem}
use sigmacatch.Pack.Index.Lookup.{IsEntry, find_offset, find_offset-write_v2_index}
use sigmacatch.Prelude.{
  List, [], arith, get_elem?, length, refl, some, suc, zero, ℕ, ◌++◌, ◌+◌, ◌<◌, ◌^◌, ◌∷◌, ◌≡◌,
}

abbrev tail_bytes : ℕ → List ℕ
tail_bytes zero = []
tail_bytes (suc n) = n ∷ tail_bytes n

-- Of two entries, the second in the pack comes first by id, and lies behind 2^31 bytes.
abbrev near : PackOffset
near = record { oid = record { first = 200; rest = tail_bytes 19 }; offset = 12; crc32 = 7 }

abbrev far : PackOffset
far = record { oid = record { first = 3; rest = tail_bytes 19 }; offset = 3000000000; crc32 = 9 }

abbrev two : List PackOffset
two = near ∷ far ∷ []

near-IsEntry : IsEntry near
near-IsEntry = record { byte = omega arith; size = refl; fits = omega arith }

far-IsEntry : IsEntry far
far-IsEntry = record { byte = omega arith; size = refl; fits = omega arith }

abbrev no_digest : List ℕ → List ℕ
no_digest bs = []

sorted_first : get_elem? (sort_entries two) 0 ≡ some far
unfolding sort_entries
sorted_first = refl

find_offset_example : find_offset (write_v2_index no_digest two []) 0 ≡ some 3000000000
find_offset_example =
    find_offset-write_v2_index no_digest two [] 0 far (near-IsEntry, (far-IsEntry, tt))
      (omega arith) sorted_first

fanout_example : get_elem? (fanout two) 100 ≡ some (count_upto 100 two)
fanout_example =
    fanout-count_upto two 100 (omega arith) (near-IsEntry.byte, (far-IsEntry.byte, tt))
      (omega arith)

count_test : count_upto 100 two ≡ 1
unfolding count_upto
count_test = refl

sort_entries_example : IsSorted (sort_entries two) × Perm (sort_entries two) two
sort_entries_example = sort_entries_lem two

few : length {A = ℕ} [] + length (sort_entries two) < 2 ^ 31
unfolding sort_entries
few = omega arith

offset_words_example : Found [] (sort_entries two) 0 3000000000
offset_words_example = offset_words-Found [] (sort_entries two) 0 far sorted_first few

read_header_example : read_header (encode_pack_header 3 1000 ++ []) ≡ some (3, 1000, [])
read_header_example = read_header-encode_pack_header 3 1000 [] (omega arith)

header_test : encode_pack_header (kind_to_pack_type blob) 1000 ≡ 184 ∷ 62 ∷ []
unfolding encode_pack_header kind_to_pack_type
header_test = refl
