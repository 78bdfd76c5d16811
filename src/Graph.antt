-- ===== src/Graph.antt =====
-- Package graph: the API graph, and the backward chaining of graph/chain.go.
pub mod Names
pub mod Topo
pub mod Model
pub mod Chain
pub mod Layer
pub mod Permute
mod Tests
mod LayerTests
