-- ===== src/Repo/Commit/Laws.antt =====
-- `git_commit` of repo/porcelain.rs: what a commit is made of.
use sigmacatch.Repo.Commit.{
  CommitError, bad_head, bad_index, bad_tree, no_head, no_index, not_signed, not_written, ref_error,
  Objects, commit_text, commit_tree, git_commit, head_ref, merged_index, or_error, unless_same,
}
use sigmacatch.Repo.Refs.{RefOps}
use sigmacatch.Repo.Trees.{IndexEntry, Oid, Tree, add_tree_to_index, overlay}
use sigmacatch.Repo.Trees.Merge.{add_tree_to_index-leaves, find-overlay, last_of, leaves, or_else}
use sigmacatch.Prelude.{
  Bool-cases, List, Option, Option-cases, String, ap, false, if◌then◌else◌, inl, inr, none, refl,
  some, str_eq, sym, ◌∙◌, ◌≡◌, ◌⊎◌,
}

-- A step that may fail did not, when the whole did not.
or_error-inl {ℓ κ} :
    {A : Type ℓ} {B : Type κ} (e : CommitError) (o : Option A) (f : A → B ⊎ CommitError) (b : B)
    → or_error e o f ≡ inl b
    → (a : A) × (o ≡ some a) × (f a ≡ inl b)
or_error-inl e none f b h = absurd (cc)
or_error-inl e (some a) f b h = (a, refl, h)

module _ (refs_ops : RefOps) (objects : Objects) (find : String → objects.Index → Option IndexEntry)
    (find-empty : (p : String) → find p objects.empty ≡ none)
    (find-add : (p : String) (e : IndexEntry) (ix : objects.Index)
      → find p (objects.add_or_replace e ix)
        ≡ (if str_eq e.path p then some e else find p ix)) where
  or_else-none : (o : Option IndexEntry) → or_else o none ≡ o
  or_else-none none = refl
  or_else-none (some e) = refl

  find-merged_index :
      (head : Tree) (staged : List IndexEntry) (ix : objects.Index) (p : String)
      → merged_index refs_ops objects head staged ≡ some ix
      → find p ix ≡ or_else (last_of p staged) (last_of p (leaves "" head))
  unfolding merged_index
  find-merged_index head staged ix p e =
      elim (Option-cases
        (add_tree_to_index objects.Index objects.add_or_replace head "" objects.empty)) [
          | inl failed ↦ absurd (cc (rw failed at e))
          | inr (whole, read) ↦
              let e' : some (overlay objects.Index objects.add_or_replace staged whole) ≡ some ix =
                rw read at e in
              let same : overlay objects.Index objects.add_or_replace staged whole ≡ ix = cc in
              let files = leaves "" head in
              let as_leaves =
                add_tree_to_index-leaves objects.Index objects.add_or_replace find find-add head ""
                  objects.empty whole read in
              let in_whole =
                ap (find p) as_leaves
                ∙ find-overlay objects.Index objects.add_or_replace find find-add files
                    objects.empty p
                ∙ ap (or_else (last_of p files)) (find-empty p)
                ∙ or_else-none (last_of p files) in
              ap (find p) (sym same)
              ∙ find-overlay objects.Index objects.add_or_replace find find-add staged whole p
              ∙ ap (or_else (last_of p staged)) in_whole
        ]

  -- What a commit is made of: the commit before it, that commit's tree, the staged entries, the
  -- index and the tree that is written.
  abbrev pub IsWhole :
      (index : Option (Option (List IndexEntry)))
      → String
      → String
      → refs_ops.Refs
      → Oid
      → refs_ops.Refs
      → Type 0
  IsWhole index message line refs commit refs' =
      (staged : List IndexEntry) × (parent : Oid) × (old : Oid × Tree) × (ix : objects.Index)
      × (new : Oid) × (target : Option String) × (raw : String) × (index ≡ some (some staged))
      × (refs_ops.resolve_ref "HEAD" refs ≡ some parent)
      × (objects.read_commit parent ≡ some old)
      × ((p : String) → find p ix ≡ or_else (last_of p staged) (last_of p (leaves "" (old.1))))
      × (objects.write_tree ix ≡ some new)
      × (str_eq new (old.0) ≡ false)
      × (objects.sign (commit_text new parent line message) ≡ some raw)
      × (objects.write_commit raw ≡ some commit)
      × (refs_ops.read_symbolic_ref "HEAD" refs ≡ some target)
      × (refs_ops.write_ref (head_ref refs_ops objects target) commit refs ≡ some refs')

  unless_same-inl :
      (new old : Oid) (r : (Oid × refs_ops.Refs) ⊎ CommitError) (b : Oid × refs_ops.Refs)
      → unless_same refs_ops objects new old r ≡ inl b
      → (str_eq new old ≡ false) × (r ≡ inl b)
  unless_same-inl new old r b h = elim (Bool-cases (str_eq new old)) [
    | inl same ↦ absurd (cc (rw same at h))
    | inr differ ↦ (differ, rw differ at h)
  ]

  -- The steps of `commit_tree`
  commit_tree-inl :
      (new parent : Oid) (message line : String) (refs refs' : refs_ops.Refs) (commit : Oid)
      → refs_ops.resolve_ref "HEAD" refs ≡ some parent
      → commit_tree refs_ops objects new message line refs ≡ inl (commit, refs')
      → (target : Option String) × (raw : String) × (objects.sign
            (commit_text new parent line message)
          ≡ some raw)
        × (objects.write_commit raw ≡ some commit)
        × (refs_ops.read_symbolic_ref "HEAD" refs ≡ some target)
        × (refs_ops.write_ref (head_ref refs_ops objects target) commit refs ≡ some refs')
  unfolding commit_tree
  commit_tree-inl new parent message line refs refs' commit head h =
      let done : Oid × refs_ops.Refs = (commit, refs') in
      let (raw, signed, h₁) =
        or_error-inl not_signed (objects.sign (commit_text new parent line message)) _ done
          (rw head at h) in
      let (oid, written, h₂) = or_error-inl not_written (objects.write_commit raw) _ done h₁ in
      let (target, symbolic, h₃) =
        or_error-inl ref_error (refs_ops.read_symbolic_ref "HEAD" refs) _ done h₂ in
      let (after, moved, h₄) =
        or_error-inl ref_error (refs_ops.write_ref (head_ref refs_ops objects target) oid refs) _
          done h₃ in
      let same : oid ≡ commit = cc in
      let same' : after ≡ refs' = cc in
      (
        target,
        raw,
        signed,
        written ∙ ap some same,
        symbolic,
        ap (λ o. refs_ops.write_ref (head_ref refs_ops objects target) o refs) (sym same)
            ∙ moved
            ∙ ap some same',
      )

  -- Where the index finds, under a path, the entry that was added last: a commit that `git_commit`
  -- makes has, under every path, the staged entry if one is staged and otherwise the file of the tree
  -- of HEAD; its tree differs from that of HEAD, its parent is the commit of HEAD, and it becomes the
  -- commit of the branch under HEAD, or of HEAD itself when it is detached.
  pub git_commit-IsWhole :
      (index : Option (Option (List IndexEntry))) (message line : String)
      (refs refs' : refs_ops.Refs) (commit : Oid)
      → git_commit refs_ops objects index message line refs ≡ inl (commit, refs')
      → IsWhole index message line refs commit refs'
  unfolding git_commit commit_tree
  git_commit-IsWhole index message line refs refs' commit h =
      let (file, is_file, h₁) = or_error-inl no_index index _ (commit, refs') h in
      let (staged, is_staged, h₂) = or_error-inl bad_index file _ (commit, refs') h₁ in
      let (parent, head, h₃) =
        or_error-inl no_head (refs_ops.resolve_ref "HEAD" refs) _ (commit, refs') h₂ in
      let (old, read, h₄) =
        or_error-inl bad_head (objects.read_commit parent) _ (commit, refs') h₃ in
      let (ix, merged, h₅) =
        or_error-inl bad_tree (merged_index refs_ops objects (old.1) staged) _ (commit, refs') h₄ in
      let (new, written, h₆) =
        or_error-inl not_written (objects.write_tree ix) _ (commit, refs') h₅ in
      let (differ, h₇) =
        unless_same-inl new (old.0) (commit_tree refs_ops objects new message line refs)
          (commit, refs') h₆ in
      let (target, raw, signed, commit_written, symbolic, moved) =
        commit_tree-inl new parent message line refs refs' commit head h₇ in
      (
        staged,
        parent,
        old,
        ix,
        new,
        target,
        raw,
        is_file ∙ ap some is_staged,
        head,
        read,
        (λ p. find-merged_index (old.1) staged ix p merged),
        written,
        differ,
        signed,
        commit_written,
        symbolic,
        moved,
      )
