-- ===== src/Dns.antt =====
-- pkg/dns: search lists and the names that a query tries, the completion of partial names, and the
-- configuration of a pod with its encodings.
pub mod Search
pub mod Merge
pub mod Expand
pub mod Partial
pub mod Pod
pub mod Env
mod Tests
