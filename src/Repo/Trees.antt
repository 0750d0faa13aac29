-- ===== src/Repo/Trees.antt =====
-- The trees of commits in sigmacatch/src/repo/plumbing/index.rs and checkout.rs. grit-lib reads and
-- parses the objects: a tree stands here with the trees that its entries refer to.
pub mod Merge
use Prim.Native.String.{len, ◌++◌ as text_append}
use sigmacatch.Text.{is_blank}
use sigmacatch.Prelude.{List, Option, String, [], if◌then◌else◌, ltb, none, some, ℕ, ◌==◌, ◌∷◌}

abbrev pub Oid : Type 0
Oid = String

-- A tree that cannot be read or parsed, or the list of its entries: those whose name is not UTF-8,
-- blobs with their mode, and trees (of mode 040000).
pub data Tree : Type 0 where
  unreadable : Tree
  no_entry : Tree
  unnamed : Tree → Tree
  blob : String → ℕ → Oid → Tree → Tree
  subtree : String → Tree → Tree → Tree

-- `rel_path`
unfoldable pub below : String → String → String
unfolding is_blank
below prefix name = if is_blank prefix then name else text_append prefix (text_append "/" name)

-- The fields of `grit_lib::index::IndexEntry` that are not the same everywhere.
pub record IndexEntry : Type 0 where
  pub dev : ℕ
  pub ino : ℕ
  pub mode : ℕ
  pub uid : ℕ
  pub gid : ℕ
  pub size : ℕ
  pub oid : Oid
  pub flags : ℕ
  pub path : String

-- `path_bytes.len().min(0xfff) as u16`
abbrev pub path_flags : String → ℕ
path_flags p = if ltb (len p) 4095 then len p else 4095

-- The mode that is kept: 100755, 120000 or else 100644, in octal.
abbrev pub tree_mode : ℕ → ℕ
tree_mode m = if m == 33261 then 33261 else (if m == 40960 then 40960 else 33188)

unfoldable pub tree_entry : String → ℕ → Oid → IndexEntry
tree_entry path mode oid = record {
  dev = 0;
  ino = 0;
  mode = tree_mode mode;
  uid = 0;
  gid = 0;
  size = 0;
  oid = oid;
  flags = path_flags path;
  path = path;
}

abbrev pub and_then {ℓ κ} : {A : Type ℓ} {B : Type κ} → Option A → (A → Option B) → Option B
and_then none f = none
and_then (some a) f = f a

-- `collect_tree_paths`: the set, the last path first; `none` is an error.
unfoldable pub collect_tree_paths : Tree → String → List String → Option (List String)
unfolding below
collect_tree_paths unreadable prefix out = none
collect_tree_paths no_entry prefix out = some out
collect_tree_paths (unnamed t) prefix out = collect_tree_paths t prefix out
collect_tree_paths (blob name mode oid t) prefix out =
    collect_tree_paths t prefix (below prefix name ∷ out)
collect_tree_paths (subtree name s t) prefix out =
    and_then (collect_tree_paths s (below prefix name) out) (λ o. collect_tree_paths t prefix o)

-- The index of grit-lib, as far as the program uses it.
module _ (Index : Type 0) (add_or_replace : IndexEntry → Index → Index) where
  -- `add_tree_to_index`
  unfoldable pub add_tree_to_index : Tree → String → Index → Option Index
  unfolding below tree_entry
  add_tree_to_index unreadable prefix ix = none
  add_tree_to_index no_entry prefix ix = some ix
  add_tree_to_index (unnamed t) prefix ix = add_tree_to_index t prefix ix
  add_tree_to_index (blob name mode oid t) prefix ix =
      add_tree_to_index t prefix (add_or_replace (tree_entry (below prefix name) mode oid) ix)
  add_tree_to_index (subtree name s t) prefix ix =
      and_then (add_tree_to_index s (below prefix name) ix) (λ i. add_tree_to_index t prefix i)

  -- The loop of `git_commit` over the staged entries
  unfoldable pub overlay : List IndexEntry → Index → Index
  overlay [] ix = ix
  overlay (e ∷ es) ix = overlay es (add_or_replace e ix)
