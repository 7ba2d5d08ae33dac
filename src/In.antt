-- ===== src/In.antt =====
-- in/: the frontend side. The names of frontends, the incoming request, the connection of a client,
-- the sessions of the manager, and the administrative endpoints.
pub mod Names
pub mod Escape
pub mod Request
pub mod Inc
pub mod Sessions
pub mod Admin
