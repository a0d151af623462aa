-- ===== src/Client.antt =====
-- cmd/dockerfuse/client: the client of the satellite, and the FUSE nodes above it.
pub mod Rpc
pub mod Calls
pub mod Session
pub mod Options
