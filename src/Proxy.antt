-- ===== src/Proxy.antt =====
-- pkg/proxy: the routing table of the Service proxy with its ClientIP affinity, the NetworkPolicy
-- verdict, the node ports, and the drift between the views of the backends.
pub mod Policy
pub mod Routing
pub mod Drift
pub mod NodePort
mod Tests
pub mod Transport
