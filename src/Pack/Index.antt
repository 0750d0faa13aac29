-- ===== src/Pack/Index.antt =====
-- `write_v2_index` of pack.rs, as the list of bytes that it writes.
pub mod Words
pub mod Fanout
pub mod Offsets
pub mod Sorting
pub mod Lookup
use sigmacatch.Prelude.{
  List, [], bytes_leb, if◌then◌else◌, leb, length, map, suc, take, zero, ℕ, ◌%◌, ◌++◌, ◌+◌, ◌/◌,
  ◌^◌, ◌∷◌,
}

-- grit-lib's object id, as its bytes: the first one, on which the fan-out table goes, and the rest.
pub record ObjectId : Type 0 where
  pub first : ℕ
  pub rest : List ℕ

abbrev pub as_bytes : ObjectId → List ℕ
as_bytes o = o.first ∷ o.rest

pub record PackOffset : Type 0 where
  pub oid : ObjectId
  pub offset : ℕ
  pub crc32 : ℕ

-- `to_be_bytes` of a `u32` and of a `u64`
abbrev pub be32 : ℕ → List ℕ
be32 w = (w / 2 ^ 24 % 256) ∷ (w / 2 ^ 16 % 256) ∷ (w / 2 ^ 8 % 256) ∷ (w % 256) ∷ []

abbrev pub be64 : ℕ → List ℕ
be64 w = be32 (w / 2 ^ 32) ++ be32 (w % 2 ^ 32)

abbrev pub words : (ℕ → List ℕ) → List ℕ → List ℕ
words be [] = []
words be (w ∷ ws) = be w ++ words be ws

-- `a += b` on a `u32`, which wraps in a release build
abbrev pub add32 : ℕ → ℕ → ℕ
add32 a b = (a + b) % 2 ^ 32

abbrev pub bump : ℕ → List ℕ → List ℕ
bump i [] = []
bump zero (c ∷ cs) = add32 c 1 ∷ cs
bump (suc i) (c ∷ cs) = c ∷ bump i cs

-- `for entry in offsets { fanout[entry.oid.as_bytes()[0]] += 1 }`
abbrev pub tally : List PackOffset → List ℕ → List ℕ
tally [] counts = counts
tally (e ∷ es) counts = tally es (bump e.oid.first counts)

-- `for i in 1..256 { fanout[i] += fanout[i - 1] }`
abbrev pub running : ℕ → List ℕ → List ℕ
running before [] = []
running before (c ∷ cs) = add32 c before ∷ running (add32 c before) cs

abbrev pub zeros : ℕ → List ℕ
zeros zero = []
zeros (suc n) = 0 ∷ zeros n

unfoldable pub fanout : List PackOffset → List ℕ
fanout es = running 0 (tally es (zeros 256))

abbrev pub insert_sorted : PackOffset → List PackOffset → List PackOffset
insert_sorted e [] = e ∷ []
insert_sorted e (f ∷ fs) =
    let rest = insert_sorted e fs in
    if bytes_leb (as_bytes e.oid) (as_bytes f.oid) then e ∷ f ∷ fs else f ∷ rest

-- `sorted.sort_by(..)`, a stable sort
unfoldable pub sort_entries : List PackOffset → List PackOffset
sort_entries [] = []
sort_entries (e ∷ es) = insert_sorted e (sort_entries es)

-- The loop over `sorted` that writes the offset words and collects the large offsets.
-- `0x80000000 | table_index as u32` keeps the low 31 bits of the index.
unfoldable pub offset_words : List ℕ → List PackOffset → List ℕ
offset_words large [] = []
offset_words large (e ∷ es) =
    if leb (2 ^ 31) e.offset
    then (2 ^ 31 + length large % 2 ^ 31) ∷ offset_words (large ++ e.offset ∷ []) es
    else e.offset ∷ offset_words large es

unfoldable pub large_offsets : List PackOffset → List ℕ
large_offsets [] = []
large_offsets (e ∷ es) =
    let rest = large_offsets es in if leb (2 ^ 31) e.offset then e.offset ∷ rest else rest

abbrev pub oid_bytes : List PackOffset → List ℕ
oid_bytes [] = []
oid_bytes (e ∷ es) = take 20 (as_bytes e.oid) ++ oid_bytes es

-- `IDX_MAGIC` and `IDX_VERSION`
abbrev pub magic : List ℕ
magic = 0xff ∷ 0x74 ∷ 0x4f ∷ 0x63 ∷ be32 2

-- The index without its own checksum; `sha1` is the digest of the crate sha1.
unfoldable pub index_body : List PackOffset → List ℕ → List ℕ
unfolding fanout sort_entries offset_words large_offsets
index_body offsets pack_checksum =
    let sorted = sort_entries offsets in
    magic
    ++ (words be32 (fanout offsets)
        ++ (oid_bytes sorted
            ++ (words be32 (map (λ e. e.crc32) sorted)
                ++ (words be32 (offset_words [] sorted)
                    ++ (words be64 (large_offsets sorted) ++ take 20 pack_checksum)))))

unfoldable pub write_v2_index :
    (sha1 : List ℕ → List ℕ) → List PackOffset → (pack_checksum : List ℕ) → List ℕ
unfolding index_body
write_v2_index sha1 offsets pack_checksum =
    let idx = index_body offsets pack_checksum in idx ++ sha1 idx
