-- ===== src/Ebpf/Numbering.antt =====
-- The ids of the records that the builder of inputs/ebpf_event.rs makes.
use sigmacatch.Ebpf.Builder.{EventBuilder, Platform, user_name, image_hash, system}
use sigmacatch.Ebpf.Events.{
  Data, dns_data, exec_data, exec_info, file_data, find_parent, named_data, net_data, dns_text,
  exec_text, exit_text, file_text, net_text, record_text,
}
use sigmacatch.Ebpf.Proc.{World, read_ppid}
use sigmacatch.Ebpf.Query.{parse_query_name}
use sigmacatch.Ebpf.Render.{System, event_text}
use sigmacatch.Ebpf.Tracking.{History}
use sigmacatch.Ebpf.Wire.{RingRecord, exec, exit, file, dns, net}
use sigmacatch.Prelude.{
  Bool-cases, List, Option, Option-cases, String, [], ap, arith, find_entry, inl, inr, length, ltb,
  none, refl, some, subst, take, ℕ, ◌%◌, ◌+◌, ◌<◌, ◌^◌, ◌∙◌, ◌∷◌, ◌≡◌,
}

-- The texts have the ids that follow `n`, in order.
abbrev pub AreNumbered : ℕ → List String → Type 0
AreNumbered n [] = Unit
AreNumbered n (x ∷ xs) =
    ((s : System) × (ds : Data) × (x ≡ event_text s ((n + 1) % 2 ^ 64) ds))
    × AreNumbered ((n + 1) % 2 ^ 64) xs

abbrev pub with_text : Option String → List String → List String
with_text none xs = xs
with_text (some x) xs = x ∷ xs

-- Either no event and no new id, or an event with the next id.
abbrev CountsOne : ℕ → Option String → ℕ → Type 0
CountsOne n none m = m ≡ n
CountsOne n (some x) m =
    ((s : System) × (ds : Data) × (x ≡ event_text s ((n + 1) % 2 ^ 64) ds)) × (m ≡ (n + 1) % 2 ^ 64)

-- An event that is made from a builder with the count `n`.
counts_made :
    (n m : ℕ) (s : System) (ds : Data)
    → m ≡ n
    → CountsOne n (some (event_text s ((m + 1) % 2 ^ 64) ds)) ((m + 1) % 2 ^ 64)
counts_made n m s ds e =
    let next = ap (λ k. (k + 1) % 2 ^ 64) e in ((s, ds, ap (λ k. event_text s k ds) next), next)

counts-small : (n : ℕ) (text : Option String) (m : ℕ) → n < 2 ^ 64 → CountsOne n text m → m < 2 ^ 64
counts-small n none m small same = omega (arith, same)
counts-small n (some x) m small (this, next) = omega (arith, next)

numbered_step :
    (n : ℕ) (text : Option String) (m : ℕ) (xs : List String) (last : ℕ)
    → n < 2 ^ 64
    → CountsOne n text m
    → AreNumbered m xs
    → last ≡ (m + length xs) % 2 ^ 64
    → AreNumbered n (with_text text xs) × (last ≡ (n + length (with_text text xs)) % 2 ^ 64)
numbered_step n none m xs last small same rest e =
    (subst (λ k. AreNumbered k xs) same rest, e ∙ ap (λ k. (k + length xs) % 2 ^ 64) same)
numbered_step n (some x) m xs last small (this, next) rest e =
    ((this, subst (λ k. AreNumbered k xs) next rest), omega (arith, e, next))

module _ (platform : Platform) where
  open platform use {lossy}

  user_name-record_id :
      (w : World) (uid : ℕ) (b : EventBuilder) → (user_name w uid b).1.record_id ≡ b.record_id
  unfolding user_name
  user_name-record_id w uid b = elim (Option-cases (find_entry uid b.users)) [
    | inl new ↦ rw new refl
    | inr (name, old) ↦ rw old refl
  ]

  record_text-CountsOne :
      (w : World) (r : RingRecord) (b : EventBuilder)
      → CountsOne b.record_id
          (record_text platform w r b).0
          (record_text platform w r b).1.record_id
  unfolding record_text exec_text exit_text file_text dns_text net_text image_hash
  record_text-CountsOne w (exec ev) b =
      let (user, b₁) = user_name w ev.uid b in
      let info = exec_info platform w ev user in
      let (hash, b₂) = image_hash w ev.pid info.image b₁ in
      counts_made b.record_id b₁.record_id (system w 1 5 1 b₂)
        (exec_data w ev info hash (find_parent (read_ppid w ev.pid) b₁.parents))
        (user_name-record_id w ev.uid b)
  record_text-CountsOne w (exit ev) b = elim (Option-cases (find_entry ev.pid b.parents)) [
    | inl unknown ↦ rw unknown refl
    | inr (info, known) ↦ rw known (
        counts_made b.record_id b.record_id (system w 5 3 5 b)
          (named_data w info.guid ev.pid info.image (("User", info.user) ∷ [])) refl)
  ]
  record_text-CountsOne w (file ev) b =
      let (user, b₁) = user_name w ev.uid b in
      counts_made b.record_id b₁.record_id (system w 11 2 11 b₁)
        (file_data platform w ev (find_entry ev.pid b.parents) user)
        (user_name-record_id w ev.uid b)
  record_text-CountsOne w (dns ev) b = elim (Bool-cases (ltb (length ev.payload) ev.payload_len)) [
    | inl long ↦ rw long refl
    | inr fits ↦
        rw fits (elim (Option-cases (parse_query_name lossy (take ev.payload_len ev.payload))) [
          | inl bad ↦ rw bad refl
          | inr (name, read) ↦ rw read (
              let (user, b₁) = user_name w ev.uid b in
              counts_made b.record_id b₁.record_id (system w 22 5 22 b₁)
                (dns_data platform w ev name (find_entry ev.pid b.parents) user)
                (user_name-record_id w ev.uid b))
        ])
  ]
  record_text-CountsOne w (net ev) b =
      let (user, b₁) = user_name w ev.uid b in
      counts_made b.record_id b₁.record_id (system w 3 5 3 b₁)
        (net_data platform w ev (find_entry ev.pid b.parents) user) (user_name-record_id w ev.uid b)

  -- The texts of the events of some records, and the last id.
  abbrev pub texts_of : History → EventBuilder → List String × ℕ
  texts_of [] b = ([], b.record_id)
  texts_of ((w, r) ∷ h) b =
      let (text, b') = record_text platform w r b in
      let (texts, last) = texts_of h b' in (with_text text texts, last)

  -- Each event has the id after that of the event before it, and no id is left out: the texts of the
  -- events are numbered from the builder's count on, which ends with the number of the last one.
  pub texts_of-AreNumbered :
      (h : History) (b : EventBuilder)
      → b.record_id < 2 ^ 64
      → AreNumbered b.record_id (texts_of h b).0
        × ((texts_of h b).1 ≡ (b.record_id + length (texts_of h b).0) % 2 ^ 64)
  texts_of-AreNumbered [] b small = (tt, omega arith)
  texts_of-AreNumbered ((w, r) ∷ h) b small =
      let (text, b') = record_text platform w r b in
      let one = record_text-CountsOne w r b in
      let (numbered, last) =
        texts_of-AreNumbered h b' (counts-small b.record_id text b'.record_id small one) in
      numbered_step b.record_id text b'.record_id (texts_of h b').0 (texts_of h b').1 small one
        numbered last
