-- ===== src/RpcCommon.antt =====
-- pkg/rpccommon: what the client and the satellite share.
pub mod Types
pub mod SetAttr
pub mod Flags
pub mod Sym
pub mod Error
