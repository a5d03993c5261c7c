-- ===== src/Examples.antt =====
-- Runs of the modelled code at concrete inputs, and the theorems applied to them.
mod Upstream
mod Validate
mod Guards
mod Stream
mod Hub
mod Bridge
mod Auth
mod App
mod Handlers
mod Openrpc
mod Pages
mod Settings
