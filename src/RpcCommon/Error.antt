-- ===== src/RpcCommon/Error.antt =====
-- pkg/rpccommon/utils.go, ErrnoToRPCErrorString and RPCErrorStringTOErrno: errors travel as texts.
pub mod RoundTrip
use dockerfuse.Base.{ℕ, Bool, true, false, Option, none, some, ◌++◌, ◌==◌, if◌then◌else◌}
use dockerfuse.Base.Text.{Text, str, text_eq, has_prefix, split_second}
use dockerfuse.Os.{Os}
use dockerfuse.Os.Errno.{ErrorName, errno}
use dockerfuse.RpcCommon.Sym.{errno_to_sym, sym_to_errno}

-- The field Err of a *fs.PathError or an *os.LinkError: a syscall.Errno, fs.ErrNotExist, or any other
-- error.
pub data Cause : Type 0 where
  errno_cause : ℕ → Cause
  not_exist_cause : Cause
  other_cause : Text → Cause

-- A Go error by the dynamic types that the program tells apart. `other` has the text of Error().
pub data GoError : Type 0 where
  path_error : Cause → GoError
  link_error : Cause → GoError
  syscall_errno : ℕ → GoError
  not_exist : GoError
  other : Text → GoError

-- The result of a Go function that may also panic.
pub data Result {ℓ} (A : Type ℓ) : Type ℓ where
  return : A → Result A
  fail : Text → Result A
  panic : Result A

abbrev pub eof : Text
eof = str "EOF"

-- The text of fs.ErrNotExist.
abbrev pub not_exist_text : Text
not_exist_text = str "file does not exist"

-- err.Error() == "EOF". The texts of path and link errors hold a colon, and those of error numbers
-- are messages of strerror.
abbrev pub is_eof : GoError → Bool
is_eof (other t) = text_eq t eof
is_eof _ = false

-- fmt.Errorf("errno: %s", ErrnoToSym(e)) as the text that the connection carries.
unfoldable pub errno_text : Os → ℕ → Text
errno_text os e = str "errno: " ++ errno_to_sym os e

-- The type assertion `e.Err.(syscall.Errno)` panics on any other error.
unfoldable pub cause_text {ℓ} : {A : Type ℓ} → Os → Cause → Result A
cause_text os (errno_cause e) = fail (errno_text os e)
cause_text os not_exist_cause = panic
cause_text os (other_cause t) = panic

-- The error that ErrnoToRPCErrorString returns, as the `fail` of the handler that returns it.
unfoldable pub errno_to_rpc_error_string {ℓ} : {A : Type ℓ} → Os → GoError → Result A
unfolding cause_text
errno_to_rpc_error_string os (path_error c) = cause_text os c
errno_to_rpc_error_string os (link_error c) = cause_text os c
errno_to_rpc_error_string os (syscall_errno e) = fail (errno_text os e)
errno_to_rpc_error_string os not_exist = fail (str "unknown error: " ++ not_exist_text)
errno_to_rpc_error_string os (other t) =
    if text_eq t eof then fail t else fail (str "unknown error: " ++ t)

-- `none` is the run-time panic of the index [1].
unfoldable pub rpc_error_string_to_errno : Os → Text → Option ℕ
rpc_error_string_to_errno os err =
    if has_prefix (str "errno: ") err
    then elim (split_second b' ' err) [ none ↦ none | some sym ↦ some (sym_to_errno os sym) ]
    else some (errno os ErrorName.eio)
