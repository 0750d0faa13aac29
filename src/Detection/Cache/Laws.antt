-- ===== src/Detection/Cache/Laws.antt =====
-- What the cache of compiled rules gives back.
use sigmacatch.Rules.Hex.{hex_digit, to_hex}
use sigmacatch.Detection.Cache.{
  Bytes, Compiler, blob_for, bytes_equal, cold_start, compiled, cons_before, first_line,
  hir_cache_key, loaded_or, new_with_hir_cache, read_hir_cache, save_blob, warm_start,
  write_hir_cache,
}
use sigmacatch.Prelude.{
  All, List, Option, [], all_below_lem, ap, arith, false, if_true, if◌then◌else◌, none, not, refl,
  some, sym, true, ℕ, ◌%◌, ◌++◌, ◌/◌, ◌<◌, ◌==◌, ◌∙◌, ◌∷◌, ◌≡◌, ◌≢◌,
}

abbrev pub HasNoNewline : Bytes → Type 0
HasNoNewline = All (λ b. b ≢ 10)

first_line-append :
    (key blob : Bytes) → HasNoNewline key → first_line (key ++ (10 ∷ blob)) ≡ some (key, blob)
unfolding first_line
first_line-append [] blob h = refl
first_line-append (b ∷ bs) blob (n, h) =
    let other : (b == 10) ≡ false = ground arith in
    rw other (ap (cons_before b) (first_line-append bs blob h))

-- A cache file is read back under the key that it was written for, and under no other, if the key
-- that was written has no newline.
pub read_hir_cache-write_hir_cache :
    (file : Option Bytes) (key key' blob : Bytes)
    → HasNoNewline key
    → read_hir_cache (write_hir_cache file true key blob) key'
      ≡ (if bytes_equal key key' then some blob else none)
unfolding read_hir_cache write_hir_cache
read_hir_cache-write_hir_cache file key key' blob h =
    ap (blob_for key') (first_line-append key blob h)

hex_digit-not_newline : (d : ℕ) → d < 16 → not (hex_digit d == 10) ≡ true
unfolding hex_digit
hex_digit-not_newline d h = all_below_lem 16 (λ e. not (hex_digit e == 10)) d refl h

to_hex-HasNoNewline : (bs : Bytes) → All (λ b. b < 256) bs → HasNoNewline (to_hex bs)
unfolding to_hex
to_hex-HasNoNewline [] h = tt
to_hex-HasNoNewline (b ∷ bs) (small, h) =
    let hi = hex_digit-not_newline (b / 16) (omega arith) in
    let lo = hex_digit-not_newline (b % 16) (omega arith) in
    (λ e. absurd (ground arith), (λ e. absurd (ground arith), to_hex-HasNoNewline bs h))

bytes_equal_refl : (bs : Bytes) → bytes_equal bs bs ≡ true
bytes_equal_refl [] = refl
bytes_equal_refl (b ∷ bs) = ground (arith, bytes_equal_refl bs)

module _ {Engine Rule : Type 0} (compiler : Compiler Engine Rule) where
  open compiler use {create_engine, load_hir, set_retain_hir, add_rules, save_hir}

  -- After a start that compiled the rules and wrote the cache, a start with the same key loads what
  -- was saved and leaves the file alone, whatever rules it is given, if the digest is made of bytes
  -- and the engine accepts its own blob.
  pub new_with_hir_cache_again :
      (sha1 : Bytes → Bytes) (version pipelines fingerprint : Bytes) (file : Option Bytes)
      (rules rules' : List Rule) (engine warm : Engine) (blob : Bytes)
      → ((bs : Bytes) → All (λ b. b < 256) (sha1 bs))
      → read_hir_cache file (hir_cache_key sha1 version pipelines fingerprint) ≡ none
      → add_rules (set_retain_hir create_engine) rules ≡ some engine
      → save_hir engine ≡ some blob
      → load_hir create_engine blob ≡ some warm
      → (let key = hir_cache_key sha1 version pipelines fingerprint in
          let cold = new_with_hir_cache compiler file true key rules in
          (cold.0 ≡ some engine)
          × (new_with_hir_cache compiler cold.1 true key rules' ≡ (some warm, cold.1)))
  unfolding new_with_hir_cache hir_cache_key
  new_with_hir_cache_again sha1 version pipelines fingerprint file rules rules' engine warm blob
        digest miss adds saves loads =
      let key = hir_cache_key sha1 version pipelines fingerprint in
      let plain =
        to_hex-HasNoNewline (sha1 (version ++ (10 ∷ (pipelines ++ (10 ∷ fingerprint)))))
          (digest (version ++ (10 ∷ (pipelines ++ (10 ∷ fingerprint))))) in
      let kept = write_hir_cache file true key blob in
      let cold : new_with_hir_cache compiler file true key rules ≡ (some engine, kept) =
        ap (λ o. warm_start compiler o (cold_start compiler file true key rules) file) miss
        ∙ (ap (compiled compiler file true key) adds
            ∙ ap (λ o. (some engine, save_blob compiler file true key o)) saves) in
      let hit : read_hir_cache kept key ≡ some blob =
        read_hir_cache-write_hir_cache file key key blob plain
        ∙ if_true (some blob) none (bytes_equal_refl key) in
      let again : new_with_hir_cache compiler kept true key rules' ≡ (some warm, kept) =
        ap (λ o. warm_start compiler o (cold_start compiler kept true key rules') kept) hit
        ∙ ap (λ o. loaded_or compiler o (cold_start compiler kept true key rules') kept) loads in
      (
        ap (λ r. r.0) cold,
        ap (λ r. new_with_hir_cache compiler r.1 true key rules') cold
            ∙ (again ∙ ap (λ r. (some warm, r.1)) (sym cold)),
      )
