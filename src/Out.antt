-- ===== src/Out.antt =====
-- The package out: configuration of the backends, one backend, the pool of backends, and the
-- connection to a backend.
pub mod Config
pub mod Connection
pub mod Backend
pub mod Manager
