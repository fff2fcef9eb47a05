-- ===== src/Podnet.antt =====
-- pkg/podnet: the per-node /24 carved out of the cluster CIDR, the IP allocator over it, and the
-- pod network that binds pods to addresses.
pub mod Errors
pub mod Cidr
pub mod Allocator
pub mod Network
pub mod Blackhole
pub mod Alias
mod Tests
