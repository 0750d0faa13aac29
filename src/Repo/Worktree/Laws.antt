-- ===== src/Repo/Worktree/Laws.antt =====
-- `remove_untracked` of repo/plumbing/checkout.rs: the files before and after it.
use sigmacatch.Repo.Trees.{below}
use sigmacatch.Repo.Worktree.{
  Dir, Walk, after_child, contains, dir, file, is_git, is_nothing, later_file, nothing, remove_dirs,
  remove_files, remove_untracked,
}
use sigmacatch.Prelude.{
  Bool, Bool-cases, List, String, [], ap, ap₂, arith, false, if◌then◌else◌, inl, inr, keep, refl,
  sym, true, ℕ, ◌++◌, ◌∙◌, ◌∷◌, ◌≡◌,
}

-- The files below a directory with their paths, but for what is below `.git` of the root.
abbrev pub files : String → Dir → List (String × List ℕ)
files prefix nothing = []
files prefix (file name c d) =
    let rest = files prefix d in if is_git prefix name then rest else (below prefix name, c) ∷ rest
files prefix (dir name s d) =
    let inside = files (below prefix name) s in
    let rest = files prefix d in if is_git prefix name then rest else inside ++ rest

-- The entries of the root named `.git`.
abbrev pub git_entries : String → Dir → Dir
git_entries prefix nothing = nothing
git_entries prefix (file name c d) =
    let rest = git_entries prefix d in if is_git prefix name then file name c rest else rest
git_entries prefix (dir name s d) =
    let rest = git_entries prefix d in if is_git prefix name then dir name s rest else rest

keep-append {ℓ} :
    {A : Type ℓ} (p : A → Bool) (xs ys : List A) → keep p (xs ++ ys) ≡ keep p xs ++ keep p ys
keep-append p [] ys = refl
keep-append p (x ∷ xs) ys = ground (arith, keep-append p xs ys)

module _ (tracked : List String) (removable : String → Bool) where
  abbrev pub is_tracked : String × List ℕ → Bool
  is_tracked f = contains (f.0) tracked

  later_file-ok :
      (prefix name : String) (c : List ℕ) (w : Walk)
      → (later_file tracked removable prefix name c w).ok ≡ w.ok
  later_file-ok prefix name c w = elim (Bool-cases (is_git prefix name)) [
    | inl git ↦ rw git refl
    | inr plain ↦ elim (Bool-cases (contains (below prefix name) tracked)) [
      | inl here ↦ rw (plain, here) refl
      | inr gone ↦ rw (plain, gone) refl
    ]
  ]

  later_file-files :
      (prefix name : String) (c : List ℕ) (w : Walk) (fs : List (String × List ℕ))
      → files prefix w.left ≡ keep is_tracked fs
      → files prefix (later_file tracked removable prefix name c w).left
        ≡ keep is_tracked (if is_git prefix name then fs else (below prefix name, c) ∷ fs)
  later_file-files prefix name c w fs e = elim (Bool-cases (is_git prefix name)) [
    | inl git ↦ rw git (rw git e)
    | inr plain ↦ elim (Bool-cases (contains (below prefix name) tracked)) [
      | inl here ↦ rw (plain, here) (rw plain (ap (λ rest. (below prefix name, c) ∷ rest) e))
      | inr gone ↦ rw (plain, gone) e
    ]
  ]

  is_nothing-files : (prefix : String) (d : Dir) → is_nothing d ≡ true → files prefix d ≡ []
  is_nothing-files prefix nothing h = refl
  is_nothing-files prefix (file name c d) h = absurd (cc)
  is_nothing-files prefix (dir name s d) h = absurd (cc)

  -- A directory was walked without an error, and so were those that follow.
  after_child-files :
      (prefix name : String) (child fs rest : Walk)
      → is_git prefix name ≡ false
      → (after_child tracked removable prefix name child fs rest).ok ≡ true
      → (child.ok ≡ true)
        × (rest.ok ≡ true)
        × (files prefix (after_child tracked removable prefix name child fs rest).left
            ≡ files (below prefix name) child.left ++ files prefix rest.left)
  after_child-files prefix name child fs rest plain fine = elim (Bool-cases child.ok) [
    | inr failed ↦ absurd (cc (rw failed at fine))
    | inl done ↦ elim (Bool-cases child.has_tracked) [
      | inl kept ↦ (done, rw (done, kept) at fine, rw (done, kept) (rw plain refl))
      | inr no_file ↦ elim (Bool-cases (is_nothing child.left)) [
        | inr something ↦ (
          done,
          rw (done, no_file, something) at fine,
          rw (done, no_file, something) (rw plain refl),
        )
        | inl empty ↦ elim (Bool-cases (removable (below prefix name))) [
          | inr failed ↦ absurd (cc (rw (done, no_file, empty, failed) at fine))
          | inl removed ↦ (
            done,
            rw (done, no_file, empty, removed) at fine,
            rw (done, no_file, empty, removed)
                (ap (λ fs. fs ++ files prefix rest.left)
                  (sym (is_nothing-files (below prefix name) child.left empty))),
          )
        ]
      ]
    ]
  ]

  files_left :
      (prefix : String) (d : Dir)
      → (remove_dirs tracked removable prefix d).ok ≡ true
      → files prefix (remove_dirs tracked removable prefix d).left
        ≡ keep is_tracked (files prefix d)
  unfolding remove_dirs
  files_left prefix nothing fine = refl
  files_left prefix (file name c d) fine =
      let w = remove_dirs tracked removable prefix d in
      later_file-files prefix name c w (files prefix d)
        (files_left prefix d (sym (later_file-ok prefix name c w) ∙ fine))
  files_left prefix (dir name s d) fine = elim (Bool-cases (is_git prefix name)) [
    | inl git ↦ rw git (rw git (files_left prefix d (rw git at fine)))
    | inr plain ↦ elim (Bool-cases (remove_files tracked removable (below prefix name) s).ok) [
      | inr failed ↦ absurd (cc (rw (plain, failed) at fine))
      | inl passed ↦
          let inside = remove_dirs tracked removable (below prefix name) s in
          let rest = remove_dirs tracked removable prefix d in
          let (fine', more, left) =
            after_child-files prefix name inside (remove_files tracked removable prefix d) rest
              plain (rw (plain, passed) at fine) in
          rw (plain, passed)
            (left
              ∙ ap₂ (λ xs ys. xs ++ ys) (files_left (below prefix name) s fine')
                  (files_left prefix d more)
              ∙ sym (keep-append is_tracked (files (below prefix name) s) (files prefix d)))
    ]
  ]

  later_file-git :
      (prefix name : String) (c : List ℕ) (w : Walk) (ds : Dir)
      → git_entries prefix w.left ≡ ds
      → git_entries prefix (later_file tracked removable prefix name c w).left
        ≡ (if is_git prefix name then file name c ds else ds)
  later_file-git prefix name c w ds e = elim (Bool-cases (is_git prefix name)) [
    | inl git ↦ rw git (rw git (ap (file name c) e))
    | inr plain ↦ elim (Bool-cases (contains (below prefix name) tracked)) [
      | inl here ↦ rw (plain, here) (rw plain e)
      | inr gone ↦ rw (plain, gone) e
    ]
  ]

  after_child-git :
      (prefix name : String) (child fs rest : Walk)
      → is_git prefix name ≡ false
      → (after_child tracked removable prefix name child fs rest).ok ≡ true
      → git_entries prefix (after_child tracked removable prefix name child fs rest).left
        ≡ git_entries prefix rest.left
  after_child-git prefix name child fs rest plain fine = elim (Bool-cases child.ok) [
    | inr failed ↦ absurd (cc (rw failed at fine))
    | inl done ↦ elim (Bool-cases child.has_tracked) [
      | inl kept ↦ rw (done, kept) (rw plain refl)
      | inr no_file ↦ elim (Bool-cases (is_nothing child.left)) [
        | inr something ↦ rw (done, no_file, something) (rw plain refl)
        | inl empty ↦ elim (Bool-cases (removable (below prefix name))) [
          | inr failed ↦ absurd (cc (rw (done, no_file, empty, failed) at fine))
          | inl removed ↦ rw (done, no_file, empty, removed) refl
        ]
      ]
    ]
  ]

  git_left :
      (prefix : String) (d : Dir)
      → (remove_dirs tracked removable prefix d).ok ≡ true
      → git_entries prefix (remove_dirs tracked removable prefix d).left ≡ git_entries prefix d
  unfolding remove_dirs
  git_left prefix nothing fine = refl
  git_left prefix (file name c d) fine =
      let w = remove_dirs tracked removable prefix d in
      later_file-git prefix name c w (git_entries prefix d)
        (git_left prefix d (sym (later_file-ok prefix name c w) ∙ fine))
  git_left prefix (dir name s d) fine = elim (Bool-cases (is_git prefix name)) [
    | inl git ↦ rw git (rw git (ap (dir name s) (git_left prefix d (rw git at fine))))
    | inr plain ↦
        let child =
          if (remove_files tracked removable (below prefix name) s).ok
          then remove_dirs tracked removable (below prefix name) s
          else remove_files tracked removable (below prefix name) s in
        let files' = remove_files tracked removable prefix d in
        let rest = remove_dirs tracked removable prefix d in
        let whole = rw plain at fine in
        let (fine', more, left) = after_child-files prefix name child files' rest plain whole in
        rw plain
          (after_child-git prefix name child files' rest plain whole ∙ git_left prefix d more)
  ]

  -- A walk through the work tree that meets no error leaves exactly the tracked files that were
  -- there, with their contents, and leaves what is named `.git` at the root as it is.
  pub remove_untracked-files :
      (d : Dir)
      → (remove_untracked tracked removable "" d).ok ≡ true
      → (files "" (remove_untracked tracked removable "" d).left ≡ keep is_tracked (files "" d))
        × (git_entries "" (remove_untracked tracked removable "" d).left ≡ git_entries "" d)
  unfolding remove_untracked
  remove_untracked-files d fine = elim (Bool-cases (remove_files tracked removable "" d).ok) [
    | inr failed ↦ absurd (cc (rw failed at fine))
    | inl passed ↦
        let whole = rw passed at fine in
        (rw passed (files_left "" d whole), rw passed (git_left "" d whole))
  ]
