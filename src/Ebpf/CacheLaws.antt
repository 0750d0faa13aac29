-- ===== src/Ebpf/CacheLaws.antt =====
-- `cached_sha256` of inputs/ebpf_event.rs after any requests.
use sigmacatch.Ebpf.HashCache.{
  HashCache, cached_sha256, evict, find_text, hash_cache_cap, insert_text, push, remove_text, room,
  seen_at,
}
use sigmacatch.Ebpf.Proc.{World}
use sigmacatch.Prelude.{
  Bool-cases, List, Option, Option-cases, String, [], ap, ap₂, arith, eq_iff, if◌then◌else◌, inl,
  inr, leb, length, none, refl, some, str_eq, sym, ℕ, ◌==◌, ◌∙◌, ◌∷◌, ◌≡◌, ◌⊎◌,
}

module _ {ℓ} {A : Type ℓ} where
  find_text-insert :
      (k i : String) (a : A) (m : List (String × A))
      → find_text i (insert_text k a m) ≡ (if str_eq k i then some a else find_text i m)
  find_text-insert k i a [] = refl
  find_text-insert k i a ((j, b) ∷ m) =
      ground (arith, eq_iff j k, eq_iff k i, eq_iff j i, find_text-insert k i a m)

  find_text-remove :
      (k i : String) (m : List (String × A))
      → find_text i (remove_text k m) ≡ (if str_eq k i then none else find_text i m)
  find_text-remove k i [] = ground arith
  find_text-remove k i ((j, b) ∷ m) =
      ground (arith, eq_iff j k, eq_iff k i, eq_iff j i, find_text-remove k i m)

-- The cache after some requests.
abbrev pub after_requests : List (World × String) → HashCache → HashCache
after_requests [] c = c
after_requests ((w, path) ∷ requests) c = after_requests requests (cached_sha256 w path c).1

abbrev if_timed : Option ℕ → Option String → Option String
if_timed none hash = none
if_timed (some m) hash = hash

-- The digest of a file that has a time and can be read.
abbrev pub direct : World → String → Option String
direct w path = if_timed (w.mtime path) (w.sha256 path)

module _ (content : String → ℕ → String) where
  -- The digest of a file is determined by the time of its last modification.
  abbrev pub IsFaithful : World → Type 0
  IsFaithful w =
      (p : String) (m : ℕ) (h : String) → w.mtime p ≡ some m → w.sha256 p ≡ some h → h ≡ content p m

  abbrev pub AreFaithful : List (World × String) → Type 0
  AreFaithful [] = Unit
  AreFaithful ((w, path) ∷ requests) = IsFaithful w × AreFaithful requests

  abbrev IsCoherent : HashCache → Type 0
  IsCoherent c =
      (p : String) (m : ℕ) (h : String) → find_text p c.hashes ≡ some (m, h) → h ≡ content p m

  evict-IsCoherent : (ps : List String) (c : HashCache) → IsCoherent c → IsCoherent (evict ps c)
  evict-IsCoherent [] c good = good
  evict-IsCoherent (q ∷ ps) c good = λ p m h found.
      let at = find_text-remove q p c.hashes in
      elim (Bool-cases (str_eq q p)) [
        | inl same ↦ absurd (cc (rw same at at))
        | inr other ↦ good p m h (sym (rw other at at) ∙ found)
      ]

  room-IsCoherent : (c : HashCache) → IsCoherent c → IsCoherent (room c)
  room-IsCoherent c good = elim (Bool-cases (leb hash_cache_cap (length c.hashes))) [
    | inl full ↦ rw full (evict-IsCoherent c.order c good)
    | inr free ↦ rw free good
  ]

  push-IsCoherent :
      (path : String) (m : ℕ) (hash : String) (c : HashCache)
      → hash ≡ content path m
      → IsCoherent c
      → IsCoherent (push path m hash c)
  push-IsCoherent path m hash c right good = λ p n h found.
      let at = find_text-insert path p (m, hash) c.hashes in
      elim (Bool-cases (str_eq path p)) [
        | inl same ↦
            let e : (◌≡◌ {A = Option (ℕ × String)} (some (m, hash)) (some (n, h))) =
              sym (rw same at at) ∙ found in
            let q : path ≡ p = (eq_iff path p).0 same in
            let hh : hash ≡ h = cc in let mm : m ≡ n = cc in sym hh ∙ right ∙ ap₂ content q mm
        | inr other ↦ good p n h (sym (rw other at at) ∙ found)
      ]

  at_time-IsCoherent :
      (w : World) (path : String) (c : HashCache)
      → IsFaithful w
      → IsCoherent c
      → IsCoherent (cached_sha256 w path c).1
  unfolding cached_sha256
  at_time-IsCoherent w path c faithful good = elim (Option-cases (w.mtime path)) [
    | inl gone ↦ rw gone good
    | inr (m, time) ↦ rw time (elim (Option-cases (seen_at m (find_text path c.hashes))) [
      | inr (hash, hit) ↦ rw hit good
      | inl miss ↦ rw miss (elim (Option-cases (w.sha256 path)) [
        | inl unreadable ↦ rw unreadable good
        | inr (hash, now) ↦ rw now (
            push-IsCoherent path m hash (room c) (faithful path m hash time now)
              (room-IsCoherent c good))
      ])
    ])
  ]

  seen_at-content :
      (path : String) (m : ℕ) (hash : String) (c : HashCache)
      → IsCoherent c
      → seen_at m (find_text path c.hashes) ≡ some hash
      → hash ≡ content path m
  seen_at-content path m hash c good hit = elim (Option-cases (find_text path c.hashes)) [
    | inl new ↦ absurd (cc (rw new at hit))
    | inr ((seen, h), old) ↦
        let kept : (if seen == m then some h else none) ≡ some hash = rw old at hit in
        let same : seen ≡ m = ground arith in
        let e : h ≡ hash = ground arith in sym e ∙ good path seen h old ∙ ap (content path) same
  ]

  after_requests-IsCoherent :
      (requests : List (World × String)) (c : HashCache)
      → AreFaithful requests
      → IsCoherent c
      → IsCoherent (after_requests requests c)
  after_requests-IsCoherent [] c f good = good
  after_requests-IsCoherent ((w, path) ∷ requests) c (f, fs) good =
      after_requests-IsCoherent requests (cached_sha256 w path c).1 fs
        (at_time-IsCoherent w path c f good)

  -- An answer for a file that cannot be read anymore: the digest of its last contents.
  abbrev pub IsOld : World → String → Option String → Type 0
  IsOld w path answer =
      (m : ℕ) × (w.mtime path ≡ some m) × (w.sha256 path ≡ none) × (answer ≡ some (content path m))

  answer-direct :
      (w : World) (path : String) (c : HashCache)
      → IsFaithful w
      → IsCoherent c
      → ((cached_sha256 w path c).0 ≡ direct w path) ⊎ IsOld w path (cached_sha256 w path c).0
  unfolding cached_sha256
  answer-direct w path c faithful good = elim (Option-cases (w.mtime path)) [
    | inl gone ↦ inl (rw gone refl)
    | inr (m, time) ↦ elim (Option-cases (seen_at m (find_text path c.hashes))) [
      | inr (hash, hit) ↦
          let is_content = seen_at-content path m hash c good hit in
          elim (Option-cases (w.sha256 path)) [
            | inl unreadable ↦ inr (m, time, unreadable, rw (time, hit) (ap some is_content))
            | inr (h, now) ↦
                inl (rw (time, hit, now) (ap some (is_content ∙ sym (faithful path m h time now))))
          ]
      | inl miss ↦ elim (Option-cases (w.sha256 path)) [
        | inl unreadable ↦ inl (rw (time, miss, unreadable) refl)
        | inr (h, now) ↦ inl (rw (time, miss, now) refl)
      ]
    ]
  ]

  -- If the time of a file's last modification determines its digest, then whatever was asked before,
  -- the cache answers with the digest of the file as it is, or, for a file that has a time and cannot
  -- be read anymore, possibly with the digest of its contents at that time.
  pub cached_sha256-direct :
      (requests : List (World × String)) (w : World) (path : String)
      → AreFaithful requests
      → IsFaithful w
      → (let answer =
            (cached_sha256 w path
              (after_requests requests (record { hashes = []; order = [] }))).0 in
          (answer ≡ direct w path) ⊎ IsOld w path answer)
  cached_sha256-direct requests w path fs f =
      answer-direct w path (after_requests requests (record { hashes = []; order = [] })) f (
        after_requests-IsCoherent requests (record { hashes = []; order = [] }) fs
          (λ p m h found. absurd (cc)))
