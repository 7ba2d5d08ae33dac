-- ===== src/Tests.antt =====
-- The development at concrete inputs: a small pool, a socket that breaks, and a client.
mod Pool
mod Dials
mod Connections
mod Handover
mod History
mod Frontend
mod Clients
mod Sessions
mod Admin
mod Lifecycle
