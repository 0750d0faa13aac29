-- ===== src/Repo/Trees/Merge.antt =====
-- What the index holds after a tree and the staged entries were put into it.
use sigmacatch.Repo.Trees.{
  IndexEntry, Tree, add_tree_to_index, below, blob, no_entry, overlay, subtree, tree_entry, unnamed,
  unreadable,
}
use sigmacatch.Prelude.{
  Bool, List, Option, Option-cases, String, [], ap, false, if◌then◌else◌, inl, inr, none, refl,
  some, str_eq, sym, true, ◌++◌, ◌∙◌, ◌∷◌, ◌≡◌,
}

-- The files of a tree, in its order.
abbrev pub leaves : String → Tree → List IndexEntry
leaves prefix unreadable = []
leaves prefix no_entry = []
leaves prefix (unnamed t) = leaves prefix t
leaves prefix (blob name mode oid t) = tree_entry (below prefix name) mode oid ∷ leaves prefix t
leaves prefix (subtree name s t) = leaves (below prefix name) s ++ leaves prefix t

abbrev pub or_else {ℓ} : {A : Type ℓ} → Option A → Option A → Option A
or_else (some a) o = some a
or_else none o = o

-- The last entry of a path.
abbrev pub last_of : String → List IndexEntry → Option IndexEntry
last_of p [] = none
last_of p (e ∷ es) = or_else (last_of p es) (if str_eq e.path p then some e else none)

or_else_assoc {ℓ} :
    {A : Type ℓ} (a b c : Option A) → or_else (or_else a b) c ≡ or_else a (or_else b c)
or_else_assoc none b c = refl
or_else_assoc (some a) b c = refl

module _ (Index : Type 0) (add_or_replace : IndexEntry → Index → Index)
    (find : String → Index → Option IndexEntry)
    (find-add : (p : String) (e : IndexEntry) (ix : Index)
      → find p (add_or_replace e ix) ≡ (if str_eq e.path p then some e else find p ix)) where
  if-or_else :
      (b : Bool) (e : IndexEntry) (o : Option IndexEntry)
      → (if b then some e else o) ≡ or_else (if b then some e else none) o
  if-or_else true e o = refl
  if-or_else false e o = refl

  pub find-overlay :
      (es : List IndexEntry) (ix : Index) (p : String)
      → find p (overlay Index add_or_replace es ix) ≡ or_else (last_of p es) (find p ix)
  unfolding overlay
  find-overlay [] ix p = refl
  find-overlay (e ∷ es) ix p =
      find-overlay es (add_or_replace e ix) p
      ∙ ap (or_else (last_of p es)) (find-add p e ix ∙ if-or_else (str_eq e.path p) e (find p ix))
      ∙ sym (or_else_assoc (last_of p es) (if str_eq e.path p then some e else none) (find p ix))

  overlay-append :
      (es fs : List IndexEntry) (ix : Index)
      → overlay Index add_or_replace (es ++ fs) ix
        ≡ overlay Index add_or_replace fs (overlay Index add_or_replace es ix)
  unfolding overlay
  overlay-append [] fs ix = refl
  overlay-append (e ∷ es) fs ix = overlay-append es fs (add_or_replace e ix)

  -- A tree that is read whole adds its files, in order.
  pub add_tree_to_index-leaves :
      (t : Tree) (prefix : String) (ix after : Index)
      → add_tree_to_index Index add_or_replace t prefix ix ≡ some after
      → after ≡ overlay Index add_or_replace (leaves prefix t) ix
  unfolding add_tree_to_index overlay
  add_tree_to_index-leaves unreadable prefix ix after e = absurd (cc)
  add_tree_to_index-leaves no_entry prefix ix after e = cc
  add_tree_to_index-leaves (unnamed t) prefix ix after e =
      add_tree_to_index-leaves t prefix ix after e
  add_tree_to_index-leaves (blob name mode oid t) prefix ix after e =
      add_tree_to_index-leaves t prefix
        (add_or_replace (tree_entry (below prefix name) mode oid) ix) after e
  add_tree_to_index-leaves (subtree name s t) prefix ix after e =
      elim (Option-cases (add_tree_to_index Index add_or_replace s (below prefix name) ix)) [
        | inl failed ↦ absurd (cc (rw failed at e))
        | inr (middle, done) ↦
            add_tree_to_index-leaves t prefix middle after (rw done at e)
            ∙ ap (overlay Index add_or_replace (leaves prefix t))
                (add_tree_to_index-leaves s (below prefix name) ix middle done)
            ∙ sym (overlay-append (leaves (below prefix name) s) (leaves prefix t) ix)
      ]
