-- ===== src/Printer.antt =====
-- printer/: the collection pipeline that turns a crate into `SmirJson`.
pub mod Schema
pub mod LinkMap
pub mod Prov
pub mod Allocs
pub mod TyVisitor
pub mod Items
pub mod Analyzer
pub mod Coherence
pub mod Collect
pub mod Types
pub mod Assemble
