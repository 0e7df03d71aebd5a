-- ===== src/MeshId.antt =====
-- pkg/meshid: identifiers of nodes, users, portals and messages, and channel definitions.
pub mod Ids
pub mod Node
pub mod Channel
