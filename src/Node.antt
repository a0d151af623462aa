-- ===== src/Node.antt =====
-- cmd/dockerfuse/client/dockerfuse_fs.go: the nodes of the mounted tree.
pub mod Paths
pub mod Operations
