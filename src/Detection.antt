-- ===== src/Detection.antt =====
-- sigmacatch/src/detection/mod.rs: the start of the engine, and its cache of compiled rules.
pub mod Cache
pub mod Engine
pub mod Examples
