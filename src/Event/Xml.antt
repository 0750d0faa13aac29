-- ===== src/Event/Xml.antt =====
-- The conversion of an event's XML into its two JSON views, of sigmacatch/src/types.rs. Nodes are
-- those of the crate roxmltree, whose parser is an argument; attributes are named by their local
-- names, and none is in a namespace.
pub mod Scalars
pub mod Views
pub mod Parsing
pub mod Ids
pub mod Examples
