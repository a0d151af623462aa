-- ===== src/System/Errors.antt =====
-- How a failure in the satellite reaches the client's caller.
use dockerfuse.Base.{ℕ, ◌≡◌, refl, ◌∙◌, ap, ◌≢◌, none, some, arith}
use dockerfuse.Base.Text.{Text, has_prefix}
use dockerfuse.Os.{Os}
use dockerfuse.Os.Errno.{ErrorName, errno}
use dockerfuse.RpcCommon.Sym.{errno_to_sym}
use dockerfuse.RpcCommon.Sym.RoundTrip.{sym_to_errno-errno_to_sym}
use dockerfuse.RpcCommon.Error.{fail, panic, errno_text, rpc_error_string_to_errno}
use dockerfuse.RpcCommon.Error.RoundTrip.{rpc_error_string_to_errno-errno}
use dockerfuse.Satellite.FileSystem.{FileSystem}
use dockerfuse.Satellite.Server.{Server}
use dockerfuse.Satellite.Dispatch.{Method, dispatch}
use dockerfuse.Client.Rpc.{Client, Outcome, remote, remote_error}
use dockerfuse.System.Link.{
  satellite_rpc, connected, lost_text, shutdown_text, call_then-fail, call_then-panic,
  call_then-dead,
}

pub remote_error_of :
    {A : Type 0} (os : Os) (t : Text) (e : ℕ)
    → rpc_error_string_to_errno os t ≡ some e
    → remote_error {A = A} os t ≡ Outcome.errno e
unfolding remote_error
remote_error_of os t e h = ground arith

-- The text of a named error is the client's own number for it.
pub remote_error-errno_text :
    {A : Type 0} (a b : Os) (n : ErrorName)
    → n ≢ ErrorName.eopnotsupp
    → remote_error {A = A} a (errno_text b (errno b n)) ≡ Outcome.errno (errno a n)
unfolding errno_text
remote_error-errno_text a b n h = remote_error_of a _ _ (
    rpc_error_string_to_errno-errno a (errno_to_sym b (errno b n))
    ∙ ap some (sym_to_errno-errno_to_sym b a n h))

-- The texts of a lost connection mean EIO.
pub remote_error-lost :
    {A : Type 0} (os : Os)
    → remote_error {A = A} os lost_text ≡ Outcome.errno (errno os ErrorName.eio)
unfolding remote_error rpc_error_string_to_errno has_prefix
remote_error-lost os = refl

remote_error-shutdown :
    {A : Type 0} (os : Os)
    → remote_error {A = A} os shutdown_text ≡ Outcome.errno (errno os ErrorName.eio)
unfolding remote_error rpc_error_string_to_errno has_prefix
remote_error-shutdown os = refl

pub einval_named : ErrorName.einval ≢ ErrorName.eopnotsupp
einval_named e = ground arith

module _ (F : FileSystem) (server_os client_os : Os) where
  module _ {A B : Type 0} (m : Method A) (f : A → B) (c : Client (satellite_rpc F server_os)) where
    -- If a handler fails with a named error other than EOPNOTSUPP, the client's operation answers
    -- with the number that this error has on the client's system.
    pub named_error_arrives :
        (s t : Server F) (n : ErrorName)
        → n ≢ ErrorName.eopnotsupp
        → dispatch F server_os m s ≡ (fail (errno_text server_os (errno server_os n)), t)
        → remote client_os m f (connected F server_os c (some s))
          ≡ (Outcome.errno (errno client_os n), connected F server_os c (some t))
    unfolding remote
    named_error_arrives s t n h e =
        call_then-fail F server_os m _ _ c s t _ e
        ∙ ap (λ (o : Outcome B). (o, connected F server_os c (some t)))
            (remote_error-errno_text client_os server_os n h)

    -- If a handler panics, the operation answers EIO and the satellite is gone with all its files.
    pub panic_arrives :
        (s t : Server F)
        → dispatch F server_os m s ≡ (panic, t)
        → remote client_os m f (connected F server_os c (some s))
          ≡ (Outcome.errno (errno client_os ErrorName.eio), connected F server_os c none)
    unfolding remote
    panic_arrives s t e =
        call_then-panic F server_os m _ _ c s t e
        ∙ ap (λ (o : Outcome B). (o, connected F server_os c none)) (remote_error-lost client_os)

    -- Without a satellite every operation answers EIO.
    pub remote_dead :
        remote client_os m f (connected F server_os c none)
        ≡ (Outcome.errno (errno client_os ErrorName.eio), connected F server_os c none)
    unfolding remote
    remote_dead =
        call_then-dead F server_os m _ _ c
        ∙ ap (λ (o : Outcome B). (o, connected F server_os c none))
            (remote_error-shutdown client_os)
