-- ===== src/Repo/CommitExamples.antt =====
-- The work tree, the references and a commit at concrete inputs.
use sigmacatch.Repo.Commit.{Objects, git_commit}
use sigmacatch.Repo.Commit.Laws.{IsWhole, git_commit-IsWhole}
use sigmacatch.Repo.Refs.Laws.{AreDirect, IsAdvanced, fast_forward_branch-IsAdvanced}
use sigmacatch.Repo.Refs.{
  RefOps, fast_forward_branch, read_remote_url_from_config, set_head_after_fetch,
}
use sigmacatch.Text.Words.{strip_text}
use sigmacatch.Repo.Trees.{
  IndexEntry, Oid, Tree, blob, collect_tree_paths, no_entry, subtree, tree_entry,
}
use sigmacatch.Repo.Worktree.{Dir, dir, file, nothing, remove_untracked}
use sigmacatch.Repo.Worktree.Laws.{files, git_entries, is_tracked, remove_untracked-files}
use sigmacatch.Prelude.{
  Bool, List, Option, String, [], if◌then◌else◌, inl, keep, none, refl, some, str_eq, subst, true,
  ◌∷◌, ◌≡◌,
}

-- References as an association list; HEAD points to `main`.
abbrev find_ref : String → List (String × Oid) → Option Oid
find_ref name [] = none
find_ref name ((n, oid) ∷ rs) = if str_eq n name then some oid else find_ref name rs

abbrev of_head : String → List (String × Oid) → Option Oid
of_head name rs = find_ref (if str_eq name "HEAD" then "refs/heads/main" else name) rs

-- Only HEAD is symbolic.
abbrev symbolic : String → List (String × Oid) → Option (Option String)
symbolic name rs = if str_eq name "HEAD" then some (some "refs/heads/main") else some none

abbrev refs_ops : RefOps
refs_ops = record {
  Refs = List (String × Oid);
  resolve_ref = find_ref;
  read_symbolic_ref = symbolic;
  write_ref = λ name oid rs. some ((name, oid) ∷ rs);
  write_symbolic_ref = λ name target rs. some rs;
}

abbrev old_tree : Tree
old_tree = blob "a" 33188 "1" (subtree "d" (blob "b" 33261 "2" no_entry) no_entry)

-- An index is the list of its entries, the last first.
abbrev objects : Objects
objects = record {
  Index = List IndexEntry;
  empty = [];
  add_or_replace = λ e ix. e ∷ ix;
  write_tree = λ ix. some "new";
  read_commit = λ oid. some ("old", old_tree);
  sign = λ raw. some raw;
  write_commit = λ raw. some "c2";
}

abbrev find_first : String → List IndexEntry → Option IndexEntry
find_first p [] = none
find_first p (e ∷ es) = if str_eq e.path p then some e else find_first p es

abbrev staged : List IndexEntry
staged = tree_entry "a" 33188 "9" ∷ []

abbrev heads : List (String × Oid)
heads = ("HEAD", "c1") ∷ ("refs/heads/main", "c1") ∷ ("refs/remotes/origin/main", "c0") ∷ []

commit_done :
    git_commit refs_ops objects (some (some staged)) "m" "A <a> 0 +0000" heads
    ≡ inl ("c2", ("refs/heads/main", "c2") ∷ heads)
unfolding git_commit
commit_done = refl

commit_example :
    IsWhole refs_ops objects find_first
      (λ p. refl)
      (λ p e ix. refl)
      (some (some staged))
      "m"
      "A <a> 0 +0000"
      heads
      "c2"
      (("refs/heads/main", "c2") ∷ heads)
commit_example =
    git_commit-IsWhole refs_ops objects find_first (λ p. refl) (λ p e ix. refl) (some (some staged))
      "m" "A <a> 0 +0000" heads (("refs/heads/main", "c2") ∷ heads) "c2" commit_done

find_ref-written :
    (name : String) (oid : Oid) (r r' : List (String × Oid))
    → some ((name, oid) ∷ r) ≡ some r'
    → (q : String) → symbolic q r ≡ some none
    → find_ref q r' ≡ (if str_eq name q then some oid else find_ref q r)
find_ref-written name oid r r' e q direct =
    let same : ((name, oid) ∷ r) ≡ r' = cc in
    subst (λ rs. find_ref q rs ≡ (if str_eq name q then some oid else find_ref q r)) same refl

forward_done : fast_forward_branch refs_ops heads ≡ some (("refs/heads/main", "c0") ∷ heads)
unfolding fast_forward_branch
forward_done = refl

main_stripped : AreDirect refs_ops (some (some "refs/heads/main")) heads
unfolding strip_text
main_stripped = (refl, refl)

forward_example : IsAdvanced refs_ops heads (("refs/heads/main", "c0") ∷ heads) "refs/heads/main"
forward_example =
    fast_forward_branch-IsAdvanced refs_ops find_ref-written (λ name oid r r' e direct q. refl)
      heads (("refs/heads/main", "c0") ∷ heads) main_stripped forward_done "refs/heads/main" refl

refs_test :
    (read_remote_url_from_config
        (some "[core]\nurl = x\n[remote \"origin\"]\n\turl = git@h:r\n")
        "origin"
      ≡ inl "git@h:r")
    × (set_head_after_fetch refs_ops none heads ≡ ("refs/heads/main", "c0") ∷ heads)
unfolding read_remote_url_from_config set_head_after_fetch
refs_test = (refl, refl)

abbrev disk : Dir
disk =
    dir ".git" (file "config" (1 ∷ []) nothing)
      (file "a" (2 ∷ []) (dir "d" (file "x" (3 ∷ []) nothing) (file "z" (4 ∷ []) nothing)))

abbrev tracked : List String
tracked = "d/b" ∷ "a" ∷ []

abbrev all_removable : String → Bool
all_removable p = true

walk_done : (remove_untracked tracked all_removable "" disk).ok ≡ true
unfolding remove_untracked
walk_done = refl

worktree_example :
    (files "" (remove_untracked tracked all_removable "" disk).left
      ≡ keep (is_tracked tracked all_removable) (files "" disk))
    × (git_entries "" (remove_untracked tracked all_removable "" disk).left ≡ git_entries "" disk)
worktree_example = remove_untracked-files tracked all_removable disk walk_done

-- The directory that is left empty is removed as well, and `.git` is not looked into.
worktree_test :
    ((remove_untracked tracked all_removable "" disk).left
      ≡ dir ".git" (file "config" (1 ∷ []) nothing) (file "a" (2 ∷ []) nothing))
    × (collect_tree_paths old_tree "" [] ≡ some ("d/b" ∷ "a" ∷ []))
unfolding remove_untracked collect_tree_paths
worktree_test = (refl, refl)
