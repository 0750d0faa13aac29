-- ===== src/Repo/Worktree.antt =====
-- `remove_untracked` of sigmacatch/src/repo/plumbing/checkout.rs over the directories on disk.
pub mod Laws
use sigmacatch.Repo.Trees.{below}
use sigmacatch.Text.{is_blank}
use sigmacatch.Prelude.{
  Bool, List, String, [], false, if◌then◌else◌, not, str_eq, true, ℕ, ◌&&◌, ◌||◌, ◌∷◌,
}

-- A directory: the list of its entries, which are files (or links) with contents, or directories.
pub data Dir : Type 0 where
  nothing : Dir
  file : String → List ℕ → Dir → Dir
  dir : String → Dir → Dir → Dir

-- How a walk ends: without an error or with one, whether tracked content is left, and what is left.
-- The number of removed files is left out: it is only logged.
pub record Walk : Type 0 where
  pub ok : Bool
  pub has_tracked : Bool
  pub left : Dir

abbrev pub contains : String → List String → Bool
contains p [] = false
contains p (q ∷ qs) = str_eq q p || contains p qs

abbrev pub is_git : String → String → Bool
unfolding is_blank
is_git prefix name = is_blank prefix && str_eq name ".git"

abbrev pub keeps_file : String → List ℕ → (tracked : Bool) → Walk → Walk
keeps_file name c t w = record {
  ok = w.ok;
  has_tracked = t || w.has_tracked;
  left = file name c w.left;
}

abbrev pub keeps_dir : String → Dir → (tracked : Bool) → Walk → Walk
keeps_dir name d t w = record {
  ok = w.ok;
  has_tracked = t || w.has_tracked;
  left = dir name d w.left;
}

abbrev pub is_nothing : Dir → Bool
is_nothing nothing = true
is_nothing (file name c d) = false
is_nothing (dir name s d) = false

module _ (tracked : List String) (removable : String → Bool) where
  -- The loop over the entries of a directory: the directories are left for later.
  abbrev pub first_file : String → String → List ℕ → Dir → Walk → Walk
  first_file prefix name c d w =
      if is_git prefix name
      then keeps_file name c false w
      else (if contains (below prefix name) tracked
          then keeps_file name c true w
          else (if removable (below prefix name)
              then w
              else record { ok = false; has_tracked = false; left = file name c d }))

  unfoldable pub remove_files : String → Dir → Walk
  unfolding below is_blank
  remove_files prefix nothing = record { ok = true; has_tracked = false; left = nothing }
  remove_files prefix (file name c d) = first_file prefix name c d (remove_files prefix d)
  remove_files prefix (dir name s d) = keeps_dir name s false (remove_files prefix d)

  -- What becomes of a directory after the walk through it, before the directories that follow.
  abbrev pub after_child : String → String → Walk → (files : Walk) → (rest : Walk) → Walk
  after_child prefix name child files rest =
      if not child.ok
      then record { ok = false; has_tracked = false; left = dir name child.left files.left }
      else (if child.has_tracked
          then keeps_dir name child.left true rest
          else (if not (is_nothing child.left)
              then keeps_dir name child.left false rest
              else (if removable (below prefix name) then rest else record {
                ok = false;
                has_tracked = false;
                left = dir name child.left files.left;
              })))

  -- The files that were kept, and the loop over the directories. It runs when `remove_files` of the
  -- same directory met no error, so the untracked files are gone.
  abbrev pub later_file : String → String → List ℕ → Walk → Walk
  later_file prefix name c w =
      if is_git prefix name
      then keeps_file name c false w
      else (if contains (below prefix name) tracked then keeps_file name c true w else w)

  unfoldable pub remove_dirs : String → Dir → Walk
  unfolding remove_files below is_blank
  remove_dirs prefix nothing = record { ok = true; has_tracked = false; left = nothing }
  remove_dirs prefix (file name c d) = later_file prefix name c (remove_dirs prefix d)
  remove_dirs prefix (dir name s d) =
      let inside = remove_dirs (below prefix name) s in
      let files = remove_files (below prefix name) s in
      let rest = remove_dirs prefix d in
      if is_git prefix name
      then keeps_dir name s false rest
      else after_child prefix name (if files.ok then inside else files) (remove_files prefix d) rest

  -- `remove_untracked`
  unfoldable pub remove_untracked : String → Dir → Walk
  unfolding remove_files remove_dirs
  remove_untracked prefix d =
      let files = remove_files prefix d in
      let all = remove_dirs prefix d in if files.ok then all else files
