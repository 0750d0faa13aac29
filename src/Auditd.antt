-- ===== src/Auditd.antt =====
-- sigmacatch/src/inputs/auditd.rs: records of the audit log, and the handler that groups those of
-- one audit event.
pub mod Values
pub mod RawFields
pub mod Handler
pub mod Groups
pub mod Pipeline
pub mod Examples
