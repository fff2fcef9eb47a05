-- ===== src/Ingress.antt =====
-- pkg/ingress: the L7 routing core of the ingress proxy (route.go).
pub mod Route
mod Tests
