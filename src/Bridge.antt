-- ===== src/Bridge.antt =====
-- pkg/connector: the bridge between Matrix and the mesh.
pub mod Tracker
pub mod Command
pub mod Database
pub mod Hub
pub mod Managed
pub mod Keys
pub mod Ghosts
pub mod Answer
pub mod FromMesh
pub mod ToMatrix
pub mod FromMatrix
pub mod Names
pub mod Joining
pub mod Mentions
pub mod Presence
pub mod Logins
pub mod Chats
pub mod Startup
pub mod Start
pub mod Cleanup
pub mod Periodic
