-- ===== src/Ebpf/HashCache.antt =====
-- `cached_sha256` of inputs/ebpf_event.rs, and what it reads and keeps.
use sigmacatch.Ebpf.Proc.{World}
use sigmacatch.Prelude.{
  List, Option, String, [], if◌then◌else◌, leb, length, none, some, str_eq, ℕ, ◌++◌, ◌==◌, ◌∷◌,
}

-- Hash maps with texts as keys, as lists of their entries.
module _ {ℓ} {A : Type ℓ} where
  abbrev pub find_text : String → List (String × A) → Option A
  find_text k [] = none
  find_text k ((j, a) ∷ m) = if str_eq j k then some a else find_text k m

  abbrev pub insert_text : String → A → List (String × A) → List (String × A)
  insert_text k a [] = (k, a) ∷ []
  insert_text k a ((j, b) ∷ m) =
      let rest = insert_text k a m in if str_eq j k then (j, a) ∷ m else (j, b) ∷ rest

  abbrev pub remove_text : String → List (String × A) → List (String × A)
  remove_text k [] = []
  remove_text k ((j, b) ∷ m) =
      let rest = remove_text k m in if str_eq j k then rest else (j, b) ∷ rest

-- The fields `hashes` and `hash_order` of the builder.
pub record HashCache : Type 0 where
  pub hashes : List (String × (ℕ × String))
  pub order : List String

abbrev pub hash_cache_cap : ℕ
hash_cache_cap = 4096

-- The hash that was kept, if the file was not modified since.
abbrev pub seen_at : ℕ → Option (ℕ × String) → Option String
seen_at m none = none
seen_at m (some (seen, hash)) = if seen == m then some hash else none

abbrev pub evict : List String → HashCache → HashCache
evict [] c = c
evict (p ∷ ps) c = record { hashes = remove_text p c.hashes; order = ps }

abbrev pub push : String → ℕ → String → HashCache → HashCache
push path m hash c = record {
  hashes = insert_text path (m, hash) c.hashes;
  order = c.order ++ (path ∷ []);
}

abbrev pub room : HashCache → HashCache
room c = if leb hash_cache_cap (length c.hashes) then evict c.order c else c

abbrev pub computed : String → ℕ → Option String → HashCache → Option String × HashCache
computed path m none c = (none, c)
computed path m (some hash) c = (some hash, push path m hash (room c))

abbrev pub hit_or :
    String → ℕ → Option String → Option String → HashCache → Option String × HashCache
hit_or path m (some hash) now c = (some hash, c)
hit_or path m none now c = computed path m now c

abbrev pub at_time : String → Option ℕ → Option String → HashCache → Option String × HashCache
at_time path none now c = (none, c)
at_time path (some m) now c = hit_or path m (seen_at m (find_text path c.hashes)) now c

-- `cached_sha256`
unfoldable pub cached_sha256 : World → String → HashCache → Option String × HashCache
cached_sha256 w path c = at_time path (w.mtime path) (w.sha256 path) c
