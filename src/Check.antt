-- ===== src/Check.antt =====
-- sigmacatch/src/bin/regressiondata-check.rs: the tool that validates the regression data of a
-- repository, and mends its layout.
pub mod Args
pub mod Indent
pub mod Newlines
pub mod Paths
pub mod Events
pub mod Replay
pub mod Examples
