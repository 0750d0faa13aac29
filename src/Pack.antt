-- ===== src/Pack.antt =====
-- sigmacatch/src/repo/plumbing/pack.rs: the entry headers of a pack file and the tables of its
-- version 2 index. Bytes are numbers below 256. The object database, zlib, CRC-32 and SHA-1 are
-- not modelled: an entry comes with its compressed payload and checksum.
pub mod Header
pub mod Index
pub mod Examples
