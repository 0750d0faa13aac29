-- ===== src/Repo/Refs/Laws.antt =====
-- What a fast-forward of a branch does to the references.
use sigmacatch.Repo.Refs.{
  RefOps, branch_of, fast_forward_branch, forward, forward_to, local_ref, remote_ref,
}
use Prim.Native.String.{◌++◌ as text_append}
use text.Mathlib.TextLemmas.{append_inj, append_assoc as text_assoc}
use sigmacatch.Text.Words.{strip_text}
use sigmacatch.Repo.Trees.{Oid}
use sigmacatch.Prelude.{
  Bool-cases, Option, String, ap, eq_iff, false, if◌then◌else◌, inl, inr, none, refl, some, str_eq,
  subst, sym, ◌∙◌, ◌≡◌,
}

module _ (ops : RefOps) where
  open ops use {Refs, resolve_ref, read_symbolic_ref, write_ref}

  abbrev pub tip_or : Option Oid → Option Oid → Option Oid
  tip_or none old = old
  tip_or (some oid) old = some oid

  -- What a reference resolves to when the branch that HEAD points to has the fetched tip, where there
  -- is one; a detached HEAD has no branch.
  abbrev pub advanced : Option (Option String) → Refs → String → Option Oid
  unfolding strip_text
  advanced none refs q = resolve_ref q refs
  advanced (some none) refs q = resolve_ref q refs
  advanced (some (some target)) refs q =
      let b = branch_of target in
      let old = resolve_ref q refs in
      if str_eq (local_ref b) q then tip_or (resolve_ref (remote_ref b) refs) old else old

  abbrev pub IsDirect : String → Refs → Type 0
  IsDirect name refs = read_symbolic_ref name refs ≡ some none

  abbrev Goal : String → Option Oid → Refs → Refs → String → Type 0
  Goal b o refs refs' q =
      let old = resolve_ref q refs in
      resolve_ref q refs' ≡ (if str_eq (local_ref b) q then tip_or o old else old)

  apart : (b : String) → str_eq (local_ref b) (remote_ref b) ≡ false
  apart b = elim (Bool-cases (str_eq (local_ref b) (remote_ref b))) [
    | inl t ↦
        let whole : local_ref b ≡ remote_ref b = (eq_iff (local_ref b) (remote_ref b)).0 t in
        let cut : text_append "refs/head" (text_append "s/" b)
            ≡ text_append "refs/remo" (text_append "tes/origin/" b) =
          sym (text_assoc "refs/head" "s/" b) ∙ (whole ∙ text_assoc "refs/remo" "tes/origin/" b) in
        let starts : Path String "refs/head" "refs/remo" = (append_inj cut refl).0 in
        absurd (cc ((eq_iff "refs/head" "refs/remo").1 starts))
    | inr f ↦ f
  ]

  tip_or-tip_or : (o old : Option Oid) → tip_or o (tip_or o old) ≡ tip_or o old
  tip_or-tip_or none old = refl
  tip_or-tip_or (some oid) old = refl

  -- The branch's references are direct, as git keeps them.
  abbrev pub AreDirect : Option (Option String) → Refs → Type 0
  unfolding strip_text
  AreDirect none refs = Unit
  AreDirect (some none) refs = Unit
  AreDirect (some (some target)) refs =
      IsDirect (local_ref (branch_of target)) refs × IsDirect (remote_ref (branch_of target)) refs

  -- What holds behind `fast_forward_branch`.
  abbrev pub IsAdvanced : Refs → Refs → String → Type 0
  unfolding strip_text
  IsAdvanced refs refs' q =
      (resolve_ref q refs' ≡ advanced (read_symbolic_ref "HEAD" refs) refs q)
      × (read_symbolic_ref "HEAD" refs' ≡ read_symbolic_ref "HEAD" refs)
      × (advanced (read_symbolic_ref "HEAD" refs') refs' q ≡ resolve_ref q refs')

  module _
      (resolve-write : (name : String) (oid : Oid) (r r' : Refs)
        → write_ref name oid r ≡ some r'
        → (q : String) → IsDirect q r
        → resolve_ref q r' ≡ (if str_eq name q then some oid else resolve_ref q r))
      (read_symbolic_ref-write : (name : String) (oid : Oid) (r r' : Refs)
        → write_ref name oid r ≡ some r'
        → IsDirect name r
        → (q : String) → read_symbolic_ref q r' ≡ read_symbolic_ref q r) where
    forward_to_lem :
        (b : String) (o : Option Oid) (refs refs' : Refs)
        → forward_to ops b o refs ≡ some refs'
        → (q : String) → IsDirect q refs
        → Goal b o refs refs' q
    forward_to_lem b none refs refs' h q direct =
        let same : refs ≡ refs' = cc in
        subst (λ r. Goal b none refs r q) same
          (elim (Bool-cases (str_eq (local_ref b) q)) [ inl t ↦ rw t refl | inr f ↦ rw f refl ])
    forward_to_lem b (some oid) refs refs' h q direct =
        resolve-write (local_ref b) oid refs refs' h q direct

    forward_to-same_symbolic :
        (b : String) (o : Option Oid) (refs refs' : Refs)
        → forward_to ops b o refs ≡ some refs'
        → IsDirect (local_ref b) refs
        → (q : String) → read_symbolic_ref q refs' ≡ read_symbolic_ref q refs
    forward_to-same_symbolic b none refs refs' h direct q =
        let same : refs ≡ refs' = cc in ap (read_symbolic_ref q) (sym same)
    forward_to-same_symbolic b (some oid) refs refs' h direct q =
        read_symbolic_ref-write (local_ref b) oid refs refs' h direct q

    forward_lem :
        (head : Option (Option String)) (refs refs' : Refs)
        → AreDirect head refs
        → forward ops head refs ≡ some refs'
        → (q : String) → IsDirect q refs
        → (resolve_ref q refs' ≡ advanced head refs q)
          × (read_symbolic_ref "HEAD" refs' ≡ read_symbolic_ref "HEAD" refs)
          × (advanced head refs' q ≡ resolve_ref q refs')
    unfolding strip_text
    forward_lem none refs refs' branch h q direct = absurd (cc)
    forward_lem (some none) refs refs' branch h q direct =
        let same : refs ≡ refs' = cc in
        (ap (resolve_ref q) (sym same), ap (read_symbolic_ref "HEAD") (sym same), refl)
    forward_lem (some (some target)) refs refs' (local, remote) h q direct =
        let b = branch_of target in
        let o = resolve_ref (remote_ref b) refs in
        let here = forward_to_lem b o refs refs' h q direct in
        let tracking : resolve_ref (remote_ref b) refs' ≡ o =
          rw (apart b) at (forward_to_lem b o refs refs' h (remote_ref b) remote) in
        (
          here,
          forward_to-same_symbolic b o refs refs' h local "HEAD",
          elim (Bool-cases (str_eq (local_ref b) q)) [
            | inl t ↦
                rw (t, tracking)
                  (let now : resolve_ref q refs' ≡ tip_or o (resolve_ref q refs) = rw t at here in
                    ap (tip_or o) now ∙ (tip_or-tip_or o (resolve_ref q refs) ∙ sym now))
            | inr f ↦ rw f refl
          ],
        )

    -- Where `fast_forward_branch` has no error, every direct reference resolves as before, but for the
    -- branch that HEAD points to, which has the fetched tip where there is one, whatever commits it
    -- had; HEAD points to the same branch, and there is nothing left to do for a second call. The
    -- branch and its remote tracking reference are direct, and a write to a reference is read back by
    -- that name only.
    pub fast_forward_branch-IsAdvanced :
        (refs refs' : Refs)
        → AreDirect (read_symbolic_ref "HEAD" refs) refs
        → fast_forward_branch ops refs ≡ some refs'
        → (q : String) → IsDirect q refs
        → IsAdvanced refs refs' q
    unfolding fast_forward_branch
    fast_forward_branch-IsAdvanced refs refs' branch done q direct =
        let (here, head, again) =
          forward_lem (read_symbolic_ref "HEAD" refs) refs refs' branch done q direct in
        (here, head, ap (λ h. advanced h refs' q) head ∙ again)
