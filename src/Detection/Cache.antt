-- ===== src/Detection/Cache.antt =====
-- The cache of compiled rules: `hir_cache_key`, `read_hir_cache`, `write_hir_cache`, and the start in
-- `new_with_hir_cache`. A file is its bytes, if it is there.
pub mod Laws
use sigmacatch.Rules.Hex.{to_hex}
use sigmacatch.Prelude.{
  Bool, List, Option, [], false, if◌then◌else◌, none, some, true, ℕ, ◌&&◌, ◌++◌, ◌==◌, ◌∷◌,
}

abbrev pub Bytes : Type 0
Bytes = List ℕ

-- `hir_cache_key`, over the digest of the crate sha1; the pipelines are the four texts in order.
unfoldable pub hir_cache_key :
    (sha1 : Bytes → Bytes) → (version pipelines fingerprint : Bytes) → Bytes
unfolding to_hex
hir_cache_key sha1 version pipelines fingerprint =
    to_hex (sha1 (version ++ (10 ∷ (pipelines ++ (10 ∷ fingerprint)))))

abbrev pub cons_before : ℕ → Option (Bytes × Bytes) → Option (Bytes × Bytes)
cons_before b none = none
cons_before b (some (l, rest)) = some (b ∷ l, rest)

-- `bytes.iter().position(|&b| b == b'\n')`: what stands before the newline and behind it.
unfoldable pub first_line : Bytes → Option (Bytes × Bytes)
first_line [] = none
first_line (b ∷ bs) =
    let rest = cons_before b (first_line bs) in if b == 10 then some ([], bs) else rest

abbrev pub bytes_equal : Bytes → Bytes → Bool
bytes_equal [] [] = true
bytes_equal (a ∷ s) (b ∷ t) = (a == b) && bytes_equal s t
bytes_equal _ _ = false

abbrev pub blob_for : Bytes → Option (Bytes × Bytes) → Option Bytes
blob_for key none = none
blob_for key (some (line, blob)) = if bytes_equal line key then some blob else none

abbrev pub read_bytes : Bytes → Option Bytes → Option Bytes
read_bytes key none = none
read_bytes key (some bytes) = blob_for key (first_line bytes)

-- `read_hir_cache`
unfoldable pub read_hir_cache : (file : Option Bytes) → (key : Bytes) → Option Bytes
unfolding first_line
read_hir_cache file key = read_bytes key file

-- `write_hir_cache`: the file behind a write that succeeds, or the one before.
unfoldable pub write_hir_cache :
    (file : Option Bytes) → (written : Bool) → (key blob : Bytes) → Option Bytes
write_hir_cache file written key blob = if written then some (key ++ (10 ∷ blob)) else file

-- What the start takes from rsigma-eval: a new engine with the pipelines, the loading of a blob, the
-- compilation of the rules (`none`: some rule fails), and the blob of an engine.
pub record Compiler (Engine Rule : Type 0) : Type 0 where
  pub create_engine : Engine
  pub load_hir : Engine → Bytes → Option Engine
  pub set_retain_hir : Engine → Engine
  pub add_rules : Engine → List Rule → Option Engine
  pub save_hir : Engine → Option Bytes

module _ {Engine Rule : Type 0} (compiler : Compiler Engine Rule) where
  open compiler use {create_engine, load_hir, set_retain_hir, add_rules, save_hir}

  -- The engine, if no rule failed, and the cache file.
  abbrev pub Started : Type 0
  Started = Option Engine × Option Bytes

  abbrev pub save_blob : (file : Option Bytes) → Bool → Bytes → Option Bytes → Option Bytes
  save_blob file written key none = file
  save_blob file written key (some hir) = write_hir_cache file written key hir

  abbrev pub compiled : (file : Option Bytes) → Bool → Bytes → Option Engine → Started
  compiled file written key none = (none, file)
  compiled file written key (some engine) =
      (some engine, save_blob file written key (save_hir engine))

  -- The cold path with a cache configured.
  abbrev pub cold_start : (file : Option Bytes) → Bool → Bytes → List Rule → Started
  cold_start file written key rules =
      compiled file written key (add_rules (set_retain_hir create_engine) rules)

  abbrev pub loaded_or : Option Engine → Started → Option Bytes → Started
  loaded_or none cold file = cold
  loaded_or (some engine) cold file = (some engine, file)

  abbrev pub warm_start : Option Bytes → Started → Option Bytes → Started
  warm_start none cold file = cold
  warm_start (some blob) cold file = loaded_or (load_hir create_engine blob) cold file

  -- `new_with_hir_cache` with a path for the cache
  unfoldable pub new_with_hir_cache :
      (file : Option Bytes) → (written : Bool) → (key : Bytes) → List Rule → Started
  unfolding read_hir_cache write_hir_cache
  new_with_hir_cache file written key rules =
      warm_start (read_hir_cache file key) (cold_start file written key rules) file

  abbrev pub or_new : Option Engine → Engine → Engine
  or_new none e = e
  or_new (some engine) e = engine

  -- `load_hir_cache`, which gives the engine all bytes of the file
  unfoldable pub load_hir_cache : (empty_engine : Engine) → (file : Option Bytes) → Engine
  load_hir_cache empty_engine none = empty_engine
  load_hir_cache empty_engine (some bytes) = or_new (load_hir empty_engine bytes) empty_engine
