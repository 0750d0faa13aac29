-- ===== src/Ebpf.antt =====
-- sigmacatch/src/inputs/ebpf_event.rs and ebpf.rs: the collector that watches the kernel.
pub mod Query
pub mod QueryRoundTrip
pub mod Proc
pub mod Wire
pub mod Render
pub mod HashCache
pub mod Builder
pub mod Events
pub mod Ring
pub mod CacheLaws
pub mod Tracking
pub mod Numbering
pub mod Oversize
pub mod BuilderExamples
pub mod Examples
