-- ===== src/Mesh.antt =====
-- pkg/mesh: the client of the mesh network.
pub mod World
pub mod Events
pub mod Send
pub mod Precision
pub mod Outgoing
pub mod Reports
pub mod Traceroute
pub mod Requests
pub mod Incoming
pub mod Connection
pub mod Udp
pub mod Mqtt
