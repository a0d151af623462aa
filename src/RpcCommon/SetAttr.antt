-- ===== src/RpcCommon/SetAttr.antt =====
-- pkg/rpccommon/rpc_types.go: SetAttrRequest, which marks in a bitmap the attributes to change, and
-- its getters and setters.
mod Defs
mod Laws
unfoldable pub use Defs.*
pub use Laws.*
