-- ===== src/Graph.antt =====
-- crates/gitpixel-graph: the graph of the symbols of a repository, and the analyses that read it.
pub mod Text
pub mod Store
pub mod Trace
pub mod Resolve
pub mod Impact
pub mod Changes
pub mod Build
pub mod Imports
mod Examples
