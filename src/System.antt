-- ===== src/System.antt =====
-- The client against the satellite over net/rpc: the connection carries requests one by one, an error
-- as its text, and ends when the satellite's process ends.
pub mod Link
pub mod Errors
pub mod Refusals
pub mod Paths
pub mod Directories
pub mod Handles
pub mod Files
pub mod Append
pub mod Attributes
pub mod SetAttr
pub mod Opening
pub mod Tree
