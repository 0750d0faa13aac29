-- ===== src/Repo/Commit.antt =====
-- `git_commit` of sigmacatch/src/repo/porcelain.rs and `commit_tree` of repo/plumbing/commit.rs.
pub mod Laws
use Prim.Native.Char.{Char, code}
use Prim.Native.String.{◌++◌ as text_append}
use sigmacatch.Repo.Refs.{RefOps}
use sigmacatch.Repo.Trees.{IndexEntry, Oid, Tree, add_tree_to_index, and_then, overlay}
use sigmacatch.Prelude.{
  List, Option, String, [], if◌then◌else◌, inl, inr, none, some, str_eq, ◌==◌, ◌∷◌, ◌⊎◌,
}

-- `trim_end_matches('\\n')`
abbrev pub unless_newline : Char → String → String
unless_newline c String.[] = if code c == 10 then "" else String.◌∷◌ c ""
unless_newline c (String.◌∷◌ d s) = String.◌∷◌ c (String.◌∷◌ d s)

unfoldable pub without_newlines : String → String
without_newlines String.[] = ""
without_newlines (String.◌∷◌ c s) = unless_newline c (without_newlines s)

abbrev pub header_line : String → String → String → String
header_line key value rest =
    text_append key (text_append " " (text_append value (text_append "\n" rest)))

-- The bytes of a commit, as a text; `line` is the author with the time.
unfoldable pub commit_text : Oid → Oid → String → String → String
unfolding without_newlines
commit_text tree_oid parent line message = header_line "tree" tree_oid (
    header_line "parent" parent (
      header_line "author" line (
        header_line "committer" line
          (text_append "\n" (text_append (without_newlines message) "\n")))))

pub data CommitError : Type 0 where
  no_index : CommitError
  bad_index : CommitError
  no_head : CommitError
  bad_head : CommitError
  bad_tree : CommitError
  not_written : CommitError
  nothing_to_commit : CommitError
  not_signed : CommitError
  ref_error : CommitError

-- What the program takes from grit-lib besides the references: indices, the objects that are read
-- and written, and the signature of a commit, which is the text as it is without a key.
pub record Objects : Type 1 where
  pub Index : Type 0
  pub empty : Index
  pub add_or_replace : IndexEntry → Index → Index
  pub write_tree : Index → Option Oid
  pub read_commit : Oid → Option (Oid × Tree)
  pub sign : String → Option String
  pub write_commit : String → Option Oid

abbrev pub or_error {ℓ κ} :
    {A : Type ℓ} {B : Type κ} → CommitError → Option A → (A → B ⊎ CommitError) → B ⊎ CommitError
or_error e none f = inr e
or_error e (some a) f = f a

module _ (refs_ops : RefOps) (objects : Objects) where
  open refs_ops use {Refs, resolve_ref, read_symbolic_ref, write_ref}
  open objects use {Index, empty, add_or_replace, write_tree, read_commit, sign, write_commit}

  -- The reference that takes the commit: the branch under HEAD, or HEAD itself when it is detached.
  abbrev pub head_ref : Option String → String
  head_ref none = "HEAD"
  head_ref (some name) = name

  -- `commit_tree`: the new commit and the references after it.
  unfoldable pub commit_tree : Oid → String → String → Refs → (Oid × Refs) ⊎ CommitError
  unfolding commit_text
  commit_tree tree_oid message line refs = or_error no_head (resolve_ref "HEAD" refs) (λ parent.
      or_error not_signed (sign (commit_text tree_oid parent line message)) (λ raw.
        or_error not_written (write_commit raw) (λ commit.
          or_error ref_error (read_symbolic_ref "HEAD" refs) (λ target.
            or_error ref_error (write_ref (head_ref target) commit refs)
              (λ refs'. inl (commit, refs'))))))

  -- The full tree of HEAD, and the staged entries over it.
  unfoldable pub merged_index : Tree → List IndexEntry → Option Index
  unfolding add_tree_to_index overlay
  merged_index head staged =
      and_then (add_tree_to_index Index add_or_replace head "" empty)
        (λ ix. some (overlay Index add_or_replace staged ix))

  abbrev pub unless_same : Oid → Oid → (Oid × Refs) ⊎ CommitError → (Oid × Refs) ⊎ CommitError
  unless_same tree_oid head_oid committed =
      if str_eq tree_oid head_oid then inr nothing_to_commit else committed

  -- `git_commit`: `index` is the file of the index, if there is one, and its entries, if it can be
  -- read.
  unfoldable pub git_commit :
      (index : Option (Option (List IndexEntry)))
      → String
      → String
      → Refs
      → (Oid × Refs) ⊎ CommitError
  unfolding commit_tree merged_index
  git_commit index message line refs = or_error no_index index (λ file.
      or_error bad_index file (λ staged. or_error no_head (resolve_ref "HEAD" refs) (λ parent.
        or_error bad_head (read_commit parent) (λ head.
          or_error bad_tree (merged_index (head.1) staged) (λ ix.
            or_error not_written (write_tree ix) (λ tree_oid.
              unless_same tree_oid (head.0) (commit_tree tree_oid message line refs)))))))
