-- ===== src/Upstream.antt =====
-- The upstream side of src/lib.rs: one client, and the pool of clients with failover.
pub mod Client
pub mod Endpoint
pub mod Router
