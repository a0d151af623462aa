-- ===== src/Satellite.antt =====
-- cmd/satellite/server: the file server that runs in the container.
pub mod FileSystem
pub mod Table
pub mod Server
pub mod Paths
pub mod Descriptors
pub mod Attributes
pub mod Times
pub mod Dispatch
pub mod OpenFiles
pub mod Invariant
pub mod Opening
pub mod Shutdown
pub mod Concurrent
pub mod Main
pub mod Spec
