-- ===== src/Openrpc.antt =====
-- The OpenRPC document of src/lib.rs: which component schemas it keeps, and its methods.
pub mod Schemas
pub mod Refs
pub mod Search
pub mod Reach
pub mod Closure
pub mod Document
pub mod Policy
pub mod Resolved
pub mod Listed
pub mod Methods
