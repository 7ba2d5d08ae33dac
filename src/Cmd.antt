-- ===== src/Cmd.antt =====
-- cmd/compose.go and main.go, which put the frontend's manager, the pool of backends and the two HTTP
-- servers together. `Compose` has what they build, `Main` the flags, the
-- configuration and the help, `Admin` is the administrative server over the pool,
-- `Frontend` the sessions over the pool.
pub mod Compose
pub mod Main
pub mod Admin
pub mod Frontend
