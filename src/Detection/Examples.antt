-- ===== src/Detection/Examples.antt =====
-- The cache of compiled rules at concrete inputs: an engine is a number.
use sigmacatch.Detection.Cache.{
  Bytes, Compiler, bytes_equal, hir_cache_key, new_with_hir_cache, read_hir_cache, write_hir_cache,
}
use sigmacatch.Detection.Cache.Laws.{new_with_hir_cache_again, read_hir_cache-write_hir_cache}
use sigmacatch.Prelude.{
  All, Option, [], arith, if◌then◌else◌, length, none, refl, some, true, ℕ, ◌%◌, ◌+◌, ◌<◌, ◌∷◌, ◌≡◌,
}

abbrev compiler : Compiler ℕ ℕ
compiler = record {
  create_engine = 0;
  load_hir = λ e bs. some 5;
  set_retain_hir = λ e. e + 1;
  add_rules = λ e rules. some (e + length rules);
  save_hir = λ e. some (e ∷ []);
}

abbrev digest : Bytes → Bytes
digest bs = length bs % 256 ∷ []

digest-bytes : (bs : Bytes) → All (λ b. b < 256) (digest bs)
digest-bytes bs = (omega arith, tt)

cache_example :
    read_hir_cache (write_hir_cache none true (97 ∷ []) (1 ∷ 10 ∷ [])) (98 ∷ [])
    ≡ (if bytes_equal (97 ∷ []) (98 ∷ []) then some (1 ∷ 10 ∷ []) else none)
cache_example =
    read_hir_cache-write_hir_cache none (97 ∷ []) (98 ∷ []) (1 ∷ 10 ∷ []) (λ e. omega arith, tt)

-- A file that another version wrote is missed first.
abbrev old_file : Option Bytes
old_file = some (97 ∷ 10 ∷ 1 ∷ [])

missed : read_hir_cache old_file (hir_cache_key digest (118 ∷ []) [] (49 ∷ [])) ≡ none
unfolding read_hir_cache hir_cache_key
missed = refl

start_example :
    (let key = hir_cache_key digest (118 ∷ []) [] (49 ∷ []) in
      let cold = new_with_hir_cache compiler old_file true key (7 ∷ 8 ∷ []) in
      (cold.0 ≡ some 3) × (new_with_hir_cache compiler cold.1 true key [] ≡ (some 5, cold.1)))
start_example =
    new_with_hir_cache_again compiler digest (118 ∷ []) [] (49 ∷ []) old_file (7 ∷ 8 ∷ []) [] 3 5
      (3 ∷ []) digest-bytes missed refl refl refl
