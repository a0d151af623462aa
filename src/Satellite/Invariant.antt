-- ===== src/Satellite/Invariant.antt =====
-- The table of DockerFuseFSOps mirrors the open files of the process, and every handler keeps it so.
mod Steps
mod Frame
mod Rely
mod Opening
mod Closing
mod Handlers
pub use Steps.*
pub use Frame.*
unfoldable pub use Rely.*
pub use Handlers.*
