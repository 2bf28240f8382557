-- ===== src/Graph.antt =====
-- mk_graph/: the rendering of `SmirJson` as a graph.
pub mod Format
pub mod Labels
pub mod Names
pub mod Index
pub mod AllocIndex
pub mod Flow
pub mod Context
pub mod Layout
pub mod Dot
pub mod D2
pub mod Bytes
