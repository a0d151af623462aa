-- ===== src/Tests/Messages.antt =====
-- pkg/rpccommon at concrete inputs.
use dockerfuse.Base.{ℕ, ◌≡◌, ◌≢◌, ◌<◌, ◌⊎◌, some, arith}
use dockerfuse.Base.Bits.{has}
use dockerfuse.Base.Text.{str}
use dockerfuse.Os.{linux, darwin}
use dockerfuse.Os.Errno.{ErrorName}
use dockerfuse.Os.Flags.{append}
use dockerfuse.RpcCommon.Sym.{errno_to_sym, sym_to_errno}
use dockerfuse.RpcCommon.Sym.RoundTrip.{sym_to_errno-errno_to_sym_or_eio}
use dockerfuse.RpcCommon.Error.{
  errno_cause, path_error, link_error, syscall_errno, errno_to_rpc_error_string,
  rpc_error_string_to_errno,
}
use dockerfuse.RpcCommon.Error.RoundTrip.{Arrives, errno-Arrives, rpc_error_string_to_errno_total}
use dockerfuse.RpcCommon.Flags.{
  system_to_sa_flags, sa_flags_to_system, system_to_sa_flags-sa_flags_to_system, open_flags_across,
}

-- ENOTEMPTY is 39 on Linux and 66 on Darwin.
enotempty_named : ErrorName.enotempty ≢ ErrorName.eopnotsupp
enotempty_named e = ground arith

sym_to_errno-errno_to_sym_or_eio_example :
    (sym_to_errno linux (errno_to_sym linux 512) ≡ 512)
    ⊎ (sym_to_errno linux (errno_to_sym linux 512) ≡ 5)
sym_to_errno-errno_to_sym_or_eio_example = sym_to_errno-errno_to_sym_or_eio linux 512

errno-Arrives_example :
    Arrives darwin (errno_to_rpc_error_string {A = ℕ} linux (syscall_errno 39)) 66
    × Arrives darwin (errno_to_rpc_error_string {A = ℕ} linux (path_error (errno_cause 39))) 66
    × Arrives darwin (errno_to_rpc_error_string {A = ℕ} linux (link_error (errno_cause 39))) 66
errno-Arrives_example = errno-Arrives darwin linux ErrorName.enotempty enotempty_named

rpc_error_string_to_errno_total_example :
    (e : ℕ) × (rpc_error_string_to_errno linux (str "errno: ") ≡ some e) × (0 < e)
rpc_error_string_to_errno_total_example = rpc_error_string_to_errno_total linux (str "errno: ")

system_to_sa_flags-sa_flags_to_system_example :
    system_to_sa_flags linux (sa_flags_to_system linux 21) ≡ 21
system_to_sa_flags-sa_flags_to_system_example =
    system_to_sa_flags-sa_flags_to_system linux 21 (omega arith)

open_flags_across_example :
    has (sa_flags_to_system linux (system_to_sa_flags darwin 521)) 1024 ≡ has 521 8
open_flags_across_example = open_flags_across darwin linux 521 append
