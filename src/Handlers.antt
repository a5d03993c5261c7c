-- ===== src/Handlers.antt =====
-- The HTTP handlers of src/lib.rs that serve calls and confirmations, and the counters they keep.
-- A handler's extraction of headers and bodies by axum is taken as done.
pub mod Metrics
pub mod Call
pub mod Counts
pub mod Requests
pub mod Events
pub mod Delivered
pub mod Relayed
