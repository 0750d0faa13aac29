-- ===== src/Ebpf/Tracking.antt =====
-- What the builder of inputs/ebpf_event.rs knows about processes, after any records.
use sigmacatch.Ebpf.Builder.{
  EventBuilder, ParentInfo, Platform, full_cmdline, new_guid, next_id, system, user_name,
  image_hash,
}
use sigmacatch.Ebpf.Events.{
  exit_of, exit_text, named_data, record_text, exec_info, exec_text, net_text, file_text, dns_text,
}
use sigmacatch.Ebpf.Proc.{World}
use sigmacatch.Ebpf.Query.{parse_query_name}
use sigmacatch.Ebpf.Render.{event_text}
use sigmacatch.Ebpf.Wire.{DnsEvent, ExecEvent, RingRecord, cstr, exec, exit, file, dns, net}
use sigmacatch.Prelude.{
  ==_iff, Bool-cases, List, Option, Option-cases, String, [], ap, find-insert, find-remove,
  find_entry, if◌then◌else◌, inl, inr, length, ltb, none, refl, some, subst, sym, take, ℕ, ◌==◌,
  ◌∙◌, ◌∷◌, ◌≡◌,
}

abbrev pub History : Type 0
History = List (World × RingRecord)

-- A process: its guid, image and command line.
abbrev pub Identity : Type 0
Identity = String × String × String

abbrev pub identity : Option ParentInfo → Option Identity
identity none = none
identity (some info) = some (info.guid, info.image, info.cmdline)

-- The event of an exit of a process that is known, or is not.
abbrev pub ExitOf : World → ℕ → EventBuilder → Option Identity → Option String → Type 0
ExitOf w pid b none text = text ≡ none
ExitOf w pid b (some (guid, image, cmdline)) text =
    (user : String) × (text
      ≡ some (
          event_text (system w 5 3 5 b) (next_id b)
            (named_data w guid pid image (("User", user) ∷ []))))

module _ (platform : Platform) where
  open platform use {from_utf8, lossy}

  -- The builder after some records.
  abbrev pub after : History → EventBuilder → EventBuilder
  after [] b = b
  after ((w, r) ∷ h) b = after h (record_text platform w r b).1

  -- The last exec of a process that no exit followed; `o` is what was known before.
  abbrev pub executed : World → ExecEvent → Identity
  executed w ev = (new_guid w, cstr from_utf8 ev.image, full_cmdline platform w ev)

  abbrev pub tracked : ℕ → History → Option Identity → Option Identity
  tracked pid [] o = o
  tracked pid ((w, exec ev) ∷ h) o =
      tracked pid h (if ev.pid == pid then some (executed w ev) else o)
  tracked pid ((w, exit ev) ∷ h) o = tracked pid h (if ev.pid == pid then none else o)
  tracked pid ((w, file ev) ∷ h) o = tracked pid h o
  tracked pid ((w, dns ev) ∷ h) o = tracked pid h o
  tracked pid ((w, net ev) ∷ h) o = tracked pid h o

  user_name-parents :
      (w : World) (uid : ℕ) (b : EventBuilder) → (user_name w uid b).1.parents ≡ b.parents
  unfolding user_name
  user_name-parents w uid b = elim (Option-cases (find_entry uid b.users)) [
    | inl new ↦ rw new refl
    | inr (name, old) ↦ rw old refl
  ]

  dns_text-parents :
      (w : World) (ev : DnsEvent) (b : EventBuilder)
      → (dns_text platform w ev b).1.parents ≡ b.parents
  unfolding dns_text
  dns_text-parents w ev b = elim (Bool-cases (ltb (length ev.payload) ev.payload_len)) [
    | inl long ↦ rw long refl
    | inr fits ↦
        rw fits (elim (Option-cases (parse_query_name lossy (take ev.payload_len ev.payload))) [
          | inl bad ↦ rw bad refl
          | inr (name, read) ↦ rw read (user_name-parents w ev.uid b)
        ])
  ]

  exit_text-parents :
      (w : World) (pid : ℕ) (b : EventBuilder)
      → (i : ℕ)
      → find_entry i (exit_text platform w pid b).1.parents
        ≡ (if pid == i then none else find_entry i b.parents)
  unfolding exit_text
  exit_text-parents w pid b i = elim (Option-cases (find_entry pid b.parents)) [
    | inl unknown ↦ rw unknown (elim (Bool-cases (pid == i)) [
      | inl same ↦
          rw same (ap (λ k. find_entry k b.parents) (sym ((==_iff pid i).0 same)) ∙ unknown)
      | inr other ↦ rw other refl
    ])
    | inr (info, known) ↦ rw known (find-remove pid i b.parents)
  ]

  exec_text-parents :
      (w : World) (ev : ExecEvent) (b : EventBuilder) (i : ℕ)
      → identity (find_entry i (exec_text platform w ev b).1.parents)
        ≡ (if ev.pid == i then some (executed w ev) else identity (find_entry i b.parents))
  unfolding exec_text image_hash
  exec_text-parents w ev b i =
      let (user, b₁) = user_name w ev.uid b in
      let info = exec_info platform w ev user in
      ap identity (find-insert ev.pid i info b₁.parents) ∙ elim (Bool-cases (ev.pid == i)) [
        | inl same ↦ rw same refl
        | inr other ↦
            rw other (ap (λ ps. identity (find_entry i ps)) (user_name-parents w ev.uid b))
      ]

  -- After one record, about one process.
  record_text-parents :
      (w : World) (r : RingRecord) (b : EventBuilder) (i : ℕ)
      → identity (find_entry i (record_text platform w r b).1.parents)
        ≡ tracked i ((w, r) ∷ []) (identity (find_entry i b.parents))
  unfolding record_text file_text net_text
  record_text-parents w (exec ev) b i = exec_text-parents w ev b i
  record_text-parents w (exit ev) b i =
      ap identity (exit_text-parents w ev.pid b i)
      ∙ elim (Bool-cases (ev.pid == i)) [ inl same ↦ rw same refl | inr other ↦ rw other refl ]
  record_text-parents w (file ev) b i =
      ap (λ ps. identity (find_entry i ps)) (user_name-parents w ev.uid b)
  record_text-parents w (dns ev) b i =
      ap (λ ps. identity (find_entry i ps)) (dns_text-parents w ev b)
  record_text-parents w (net ev) b i =
      ap (λ ps. identity (find_entry i ps)) (user_name-parents w ev.uid b)

  tracked-cons :
      (pid : ℕ) (w : World) (r : RingRecord) (h : History) (o : Option Identity)
      → tracked pid ((w, r) ∷ h) o ≡ tracked pid h (tracked pid ((w, r) ∷ []) o)
  tracked-cons pid w (exec ev) h o = refl
  tracked-cons pid w (exit ev) h o = refl
  tracked-cons pid w (file ev) h o = refl
  tracked-cons pid w (dns ev) h o = refl
  tracked-cons pid w (net ev) h o = refl

  after-tracked :
      (h : History) (b : EventBuilder) (pid : ℕ)
      → identity (find_entry pid (after h b).parents)
        ≡ tracked pid h (identity (find_entry pid b.parents))
  after-tracked [] b pid = refl
  after-tracked ((w, r) ∷ h) b pid =
      after-tracked h (record_text platform w r b).1 pid
      ∙ ap (tracked pid h) (record_text-parents w r b pid)
      ∙ sym (tracked-cons pid w r h (identity (find_entry pid b.parents)))

  exit_of-identity :
      (w : World) (pid : ℕ) (b : EventBuilder) (info : Option ParentInfo)
      → ExitOf w pid b (identity info) (exit_of platform w pid b info).0
  exit_of-identity w pid b none = refl
  exit_of-identity w pid b (some info) = (info.user, refl)

  -- Whatever records came before, an exit makes an event exactly if the process executed a program
  -- and no exit of it came since (or was known at first); the event has the guid and the image of
  -- the last of these programs.
  pub exit_text-tracked :
      (h : History) (b : EventBuilder) (w : World) (pid : ℕ)
      → ExitOf w pid
          (after h b)
          (tracked pid h (identity (find_entry pid b.parents)))
          (exit_text platform w pid (after h b)).0
  unfolding exit_text
  exit_text-tracked h b w pid =
      subst (λ o. ExitOf w pid (after h b) o (exit_text platform w pid (after h b)).0)
        (after-tracked h b pid)
        (exit_of-identity w pid (after h b) (find_entry pid (after h b).parents))
