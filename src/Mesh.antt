-- ===== src/Mesh.antt =====
-- pkg/mesh: the desired mesh state of a node and the wireguard configuration that programs it.
pub mod Plan
pub mod Refuse
pub mod Uapi
mod Tests
