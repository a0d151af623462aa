-- ===== src/RpcCommon/Flags.antt =====
-- pkg/rpccommon/utils.go, SystemToSAFlags and SAFlagsToSystem: open(2) flags travel in a numbering
-- that no system owns.
mod Defs
mod Chain
mod Laws
unfoldable pub use Defs.*
pub use Laws.*
