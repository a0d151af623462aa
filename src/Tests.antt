-- ===== src/Tests.antt =====
-- Concrete runs of the definitions, and the theorems at concrete inputs.
pub mod Memory
pub mod MemoryLaws
pub mod Messages
pub mod Handlers
pub mod Mount
pub mod Openings
pub mod Directories
pub mod Changes
pub mod Nodes
pub mod Sessions
pub mod Programs
pub mod OneFile
pub mod Interleavings
pub mod Processes
