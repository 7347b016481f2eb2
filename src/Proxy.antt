-- ===== src/Proxy.antt =====
-- The TLS proxy of src/proxy: its routing table, the choice of a route, and the watcher that keeps
-- the table in step with the running containers.
pub mod Config
pub mod Router
pub mod Watcher
pub mod Headers
pub mod Upstream
pub mod Handler
pub mod Routes
