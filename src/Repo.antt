-- ===== src/Repo.antt =====
-- sigmacatch/src/repo: the names of working branches, the trees of commits, the work tree, the
-- references and the commit.
pub mod Branch
pub mod Trees
pub mod Worktree
pub mod Refs
pub mod Commit
pub mod CommitExamples
