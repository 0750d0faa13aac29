-- ===== src/Linux.antt =====
-- The Linux inputs of sigmacatch/src/inputs beside auditd: syslog.rs, sysmon.rs, sysmon_parse.rs and
-- the selection of sources in linux.rs.
pub mod Syslog
pub mod Sysmon
pub mod Sources
pub mod Once
pub mod Examples
