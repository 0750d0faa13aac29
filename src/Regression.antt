-- ===== src/Regression.antt =====
-- sigmacatch/src/regression/mod.rs: which rules still need regression data, and its generation.
pub mod State
pub mod Failures
pub mod TestsPath
pub mod Generate
pub mod Adding
pub mod Examples
