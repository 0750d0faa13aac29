-- ===== src/Event.antt =====
-- sigmacatch/src/types.rs: events, and the logsource fields that are put into them.
pub mod Services
pub mod Categories
pub mod Decimal
pub mod EventData
pub mod Logsource
pub mod Xml
pub mod Tables
pub mod Payload
pub mod Examples
