-- ===== src/Pack/Index/Lookup.antt =====
-- Reading a written index the way git does: the count from the fan-out table, then the tables.
use sigmacatch.Pack.Index.{
  PackOffset, oid_bytes, magic, large_offsets, be32, be64, words, fanout, index_body, offset_words,
  sort_entries, write_v2_index,
}
use sigmacatch.Pack.Index.Sorting.{All-sort_entries, length-sort_entries}
use sigmacatch.Pack.Index.Offsets.{resolve, offset_words-Found, length-offset_words}
use sigmacatch.Pack.Index.Words.{
  read32, read64, read32-append, read64-append, length-words32, read32-words, read64-words,
}
use sigmacatch.Pack.Index.Fanout.{IsByte, count_upto, length-fanout, fanout-count_upto}
use sigmacatch.Prelude.{
  All, Bool-cases, List, Option, [], ap, append_assoc, arith, get_elem?, if◌then◌else◌, inl, inr,
  leb, length, length-append, length-map, ltb, map, none, refl, some, suc, take, take_all, zero, ℕ,
  ◌*◌, ◌++◌, ◌+◌, ◌-◌, ◌<◌, ◌^◌, ◌∙◌, ◌∷◌, ◌≡◌,
}

infixl 5 ◌>>=◌
abbrev ◌>>=◌ : Option ℕ → (ℕ → Option ℕ) → Option ℕ
none >>= k = none
some a >>= k = k a

-- The pack offset of the i-th id of an index file.
unfoldable pub find_offset : List ℕ → ℕ → Option ℕ
find_offset idx i = do
  n ← read32 1028 idx
  w ← read32 (1032 + 24 * n + 4 * i) idx
  if ltb w (2 ^ 31) then some w else read64 (1032 + 28 * n + 8 * (w - 2 ^ 31)) idx

-- A 20-byte id, whose first byte is one, and an offset of 64 bits.
pub record IsEntry (e : PackOffset) : Type 0 where
  pub byte : e.oid.first < 256
  pub size : length e.oid.rest ≡ 19
  pub fits : e.offset < 2 ^ 64

length-oid_bytes : (es : List PackOffset) → All IsEntry es → length (oid_bytes es) ≡ 20 * length es
length-oid_bytes [] h = omega arith
length-oid_bytes (e ∷ es) (p, h) =
    let whole = take_all e.oid.rest 19 p.size in
    let size = p.size in
    rw whole (omega (arith, length-append {0} e.oid.rest (oid_bytes es), length-oid_bytes es h))

IsByte-of : (es : List PackOffset) → All IsEntry es → All IsByte es
IsByte-of [] h = tt
IsByte-of (e ∷ es) (p, h) = (p.byte, IsByte-of es h)

count-All : (es : List PackOffset) → All IsEntry es → count_upto 255 es ≡ length es
unfolding count_upto
count-All [] h = refl
count-All (e ∷ es) (p, h) = let b = p.byte in ground (arith, count-All es h)

abbrev file : (fan ids crcs offs large rest : List ℕ) → List ℕ
file fan ids crcs offs large rest = magic ++ (fan ++ (ids ++ (crcs ++ (offs ++ (large ++ rest)))))

-- The sections of an index, and the place of each table by its length.
module _ (fan ids crcs offs large rest : List ℕ) (n : ℕ) (fan_size : length fan ≡ 1024)
    (ids_size : length ids ≡ 20 * n) (crcs_size : length crcs ≡ 4 * n)
    (offs_size : length offs ≡ 4 * n) where
  read_fan :
      (k : ℕ)
      → read32 (8 + k) (file fan ids crcs offs large rest)
        ≡ read32 k (fan ++ (ids ++ (crcs ++ (offs ++ (large ++ rest)))))
  read_fan k = read32-append magic _ (8 + k) k (omega arith)

  read_offs :
      (k : ℕ)
      → read32 (1032 + 24 * n + k) (file fan ids crcs offs large rest)
        ≡ read32 k (offs ++ (large ++ rest))
  read_offs k =
      read32-append magic _ (1032 + 24 * n + k) (1024 + 24 * n + k) (omega arith)
      ∙ (read32-append fan _ (1024 + 24 * n + k) (24 * n + k) (omega arith)
          ∙ (read32-append ids _ (24 * n + k) (4 * n + k) (omega arith)
              ∙ read32-append crcs _ (4 * n + k) k (omega arith)))

  read_large :
      (k : ℕ)
      → read64 (1032 + 28 * n + k) (file fan ids crcs offs large rest) ≡ read64 k (large ++ rest)
  read_large k =
      read64-append magic _ (1032 + 28 * n + k) (1024 + 28 * n + k) (omega arith)
      ∙ (read64-append fan _ (1024 + 28 * n + k) (28 * n + k) (omega arith)
          ∙ (read64-append ids _ (28 * n + k) (8 * n + k) (omega arith)
              ∙ (read64-append crcs _ (8 * n + k) (4 * n + k) (omega arith)
                  ∙ read64-append offs _ (4 * n + k) k (omega arith))))

get_elem?-lt : (xs : List ℕ) (i w : ℕ) → get_elem? xs i ≡ some w → i < length xs
get_elem?-lt [] i w h = absurd (cc)
get_elem?-lt (x ∷ xs) zero w h = omega arith
get_elem?-lt (x ∷ xs) (suc i) w h = omega (arith, get_elem?-lt xs i w h)

-- A large offset is the offset of an entry.
large_fits-cons :
    (d v : ℕ) (large : List ℕ) (j : ℕ)
    → d < 2 ^ 64
    → ((k : ℕ) → get_elem? large k ≡ some v → v < 2 ^ 64)
    → get_elem? (d ∷ large) j ≡ some v
    → v < 2 ^ 64
large_fits-cons d v large zero b ih q = let same : d ≡ v = cc in omega arith
large_fits-cons d v large (suc k) b ih q = ih k q

large_fits :
    (es : List PackOffset) (v : ℕ)
    → All IsEntry es
    → (j : ℕ) → get_elem? (large_offsets es) j ≡ some v
    → v < 2 ^ 64
unfolding large_offsets
large_fits [] v h j e = absurd (cc)
large_fits (d ∷ es) v (p, h) j e = elim (Bool-cases (leb (2 ^ 31) d.offset)) [
  | inl big ↦
      large_fits-cons d.offset v (large_offsets es) j p.fits (large_fits es v h) (rw big at e)
  | inr small ↦ large_fits es v h j (rw small at e)
]

-- The reader on the sections: a word of the offset table, resolved, is the entry's offset.
module _ (fs ids crcs ws large rest : List ℕ) (n : ℕ) (fs_size : length fs ≡ 256)
    (ids_size : length ids ≡ 20 * n) (crcs_size : length crcs ≡ 4 * n) (ws_size : length ws ≡ n)
    (count : get_elem? fs 255 ≡ some n) (n_fits : n < 2 ^ 31) where
  find_offset-file :
      (i w offset : ℕ)
      → get_elem? ws i ≡ some w
      → w < 2 ^ 32
      → resolve w large ≡ some offset
      → ((j v : ℕ) → get_elem? large j ≡ some v → v < 2 ^ 64)
      → find_offset (file (words be32 fs) ids crcs (words be32 ws) (words be64 large) rest) i
        ≡ some offset
  unfolding find_offset
  find_offset-file i w offset at fits found big =
      let fan_size : length (words be32 fs) ≡ 1024 = omega (arith, length-words32 fs) in
      let offs_size : length (words be32 ws) ≡ 4 * n = omega (arith, length-words32 ws) in
      let n_read : read32 1028
            (file (words be32 fs) ids crcs (words be32 ws) (words be64 large) rest)
          ≡ some n =
        read_fan (words be32 fs) ids crcs (words be32 ws) (words be64 large) rest n fan_size
          ids_size crcs_size offs_size 1020
        ∙ read32-words fs (ids ++ (crcs ++ (words be32 ws ++ (words be64 large ++ rest)))) 255 n
            count (omega arith) in
      let w_read =
        read_offs (words be32 fs) ids crcs (words be32 ws) (words be64 large) rest n fan_size
          ids_size crcs_size offs_size (4 * i)
        ∙ read32-words ws (words be64 large ++ rest) i w at fits in
      elim (Bool-cases (ltb w (2 ^ 31))) [
        | inl small ↦ rw (n_read, w_read, small) (rw small at found)
        | inr large_word ↦
            rw (n_read, w_read, large_word)
              (read_large (words be32 fs) ids crcs (words be32 ws) (words be64 large) rest n
                  fan_size ids_size crcs_size offs_size (8 * (w - 2 ^ 31))
                ∙ read64-words large rest (w - 2 ^ 31) offset (rw large_word at found)
                    (big (w - 2 ^ 31) offset (rw large_word at found)))
      ]

module _ (sha1 : List ℕ → List ℕ) (es : List PackOffset) (checksum : List ℕ) where
  file_of_index :
      write_v2_index sha1 es checksum
      ≡ file
          (words be32 (fanout es))
          (oid_bytes (sort_entries es))
          (words be32 (map (λ e. e.crc32) (sort_entries es)))
          (words be32 (offset_words [] (sort_entries es)))
          (words be64 (large_offsets (sort_entries es)))
          (take 20 checksum ++ sha1 (index_body es checksum))
  unfolding write_v2_index
  file_of_index = simp append_assoc

-- In the index of fewer than 2^31 entries, the i-th entry by id is found at its pack offset, also
-- where that offset stands in the table of the large ones.
pub find_offset-write_v2_index :
    (sha1 : List ℕ → List ℕ) (es : List PackOffset) (checksum : List ℕ) (i : ℕ) (e : PackOffset)
    → All IsEntry es
    → length es < 2 ^ 31
    → get_elem? (sort_entries es) i ≡ some e
    → find_offset (write_v2_index sha1 es checksum) i ≡ some e.offset
find_offset-write_v2_index sha1 es checksum i e entries few at =
    let sorted = sort_entries es in
    let n = length es in
    let same : length sorted ≡ n = length-sort_entries es in
    let ok = All-sort_entries IsEntry es entries in
    let f = offset_words-Found [] sorted i e at (omega arith) in
    rw (file_of_index sha1 es checksum) (
      find_offset-file (fanout es) (oid_bytes sorted) (words be32 (map (λ d. d.crc32) sorted))
        (offset_words [] sorted) (large_offsets sorted)
        (take 20 checksum ++ sha1 (index_body es checksum)) n (length-fanout es)
        (omega (arith, length-oid_bytes sorted ok))
        (omega (
          arith,
          length-words32 (map (λ (d : PackOffset). d.crc32) sorted),
          length-map {0, 0} (λ (d : PackOffset). d.crc32) sorted,
        ))
        (omega (arith, length-offset_words [] sorted))
        (fanout-count_upto es 255 (omega arith) (IsByte-of es entries) (omega arith)
          ∙ ap some (count-All es entries))
        few i f.word e.offset f.stored f.fits f.resolved (λ j v. large_fits sorted v ok j))
