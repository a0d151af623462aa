-- ===== src/System/Refusals.antt =====
-- Every answer of a call below, as the client's caller sees it.
use dockerfuse.Base.{
  ℕ, ◌≡◌, refl, ◌∙◌, ap, Option, none, some, ◌++◌, Bool-cases, inl, inr, arith, if◌then◌else◌,
}
use dockerfuse.Base.Text.{Text, str, text_eq, text_eq_iff, has_prefix}
use dockerfuse.Os.{Os}
use dockerfuse.Os.Errno.{ErrorName, errno}
use dockerfuse.RpcCommon.Sym.{errno_to_sym, sym_to_errno}
use dockerfuse.RpcCommon.Error.{
  errno_cause, not_exist_cause, other_cause, GoError, path_error, link_error, syscall_errno,
  not_exist, other, eof, not_exist_text, Result, fail, errno_text, errno_to_rpc_error_string,
  rpc_error_string_to_errno,
}
use dockerfuse.RpcCommon.Error.RoundTrip.{rpc_error_string_to_errno-errno}
use dockerfuse.Satellite.FileSystem.{FileSystem, Try, done, raise}
use dockerfuse.Satellite.Server.{Server, ◌>>=◌, pure, attempt}
use dockerfuse.Satellite.Server.Laws.{>>=-return, >>=-raise, attempt-done, attempt-raise}
use dockerfuse.Satellite.Dispatch.{Method, dispatch}
use dockerfuse.Client.Rpc.{Client, Outcome, remote, remote_error}
use dockerfuse.System.Link.{satellite_rpc, connected, call_then-return, call_then-fail}
use dockerfuse.System.Errors.{remote_error_of, panic_arrives}

-- The error number that the caller gets for an error: the satellite's number under the client's
-- numbering, and EIO for an error without a number.
abbrev pub number_seen : Os → Os → GoError → ℕ
number_seen a b (path_error (errno_cause e)) = sym_to_errno a (errno_to_sym b e)
number_seen a b (link_error (errno_cause e)) = sym_to_errno a (errno_to_sym b e)
number_seen a b (syscall_errno e) = sym_to_errno a (errno_to_sym b e)
number_seen a b _ = errno a ErrorName.eio

-- The satellite survives every error but a path or link error without a number.
abbrev pub survivor {ℓ} : {S : Type ℓ} → GoError → S → Option S
survivor (path_error not_exist_cause) s = none
survivor (path_error (other_cause t)) s = none
survivor (link_error not_exist_cause) s = none
survivor (link_error (other_cause t)) s = none
survivor _ s = some s

unnumbered_arrives :
    {A : Type 0} (os : Os) (t : Text)
    → remote_error {A = A} os (if text_eq t eof then t else str "unknown error: " ++ t)
      ≡ Outcome.errno (errno os ErrorName.eio)
unfolding remote_error rpc_error_string_to_errno has_prefix
unnumbered_arrives os t = elim (Bool-cases (text_eq t eof)) [
  | inl at_eof ↦ rw (at_eof, (text_eq_iff t eof).0 at_eof)
  | inr unknown ↦ rw unknown
]

named_arrives :
    {A : Type 0} (a b : Os) (e : ℕ)
    → remote_error {A = A} a (errno_text b e) ≡ Outcome.errno (sym_to_errno a (errno_to_sym b e))
unfolding errno_text
named_arrives a b e = remote_error_of a _ _ (rpc_error_string_to_errno-errno a (errno_to_sym b e))

one_failure :
    {A : Type 0} {F : FileSystem} (x : Text) (t : Server F)
    → ◌≡◌ {A = Result A × Server F}
        ((if text_eq x eof then fail x else fail (str "unknown error: " ++ x)), t)
        (fail (if text_eq x eof then x else str "unknown error: " ++ x), t)
one_failure x t = ground arith

module _ (F : FileSystem) (server_os client_os : Os) {B : Type 0}
    (c : Client (satellite_rpc F server_os)) where
  -- A refused request: what the caller gets, and which satellite is left.
  abbrev pub refused_with : GoError → Server F → Outcome B × Client (satellite_rpc F server_os)
  refused_with g t =
      (Outcome.errno (number_seen client_os server_os g), connected F server_os c (survivor g t))

  -- What the caller gets for each answer of a call below, where `f` makes the result.
  abbrev pub answered :
      {C : Type 0}
      → Server F
      → (C → B)
      → Try C × F.World
      → Outcome B × Client (satellite_rpc F server_os)
  answered s f (done v, w) =
      (Outcome.done (f v), connected F server_os c (some (record s { world = w })))
  answered s f (raise e, w) = refused_with e (record s { world = w })

module _ (F : FileSystem) (server_os client_os : Os) {A B : Type 0} (m : Method A) (f : A → B) where
  module _ (c : Client (satellite_rpc F server_os)) (s : Server F) where
    failed_across :
        (t : Server F) (x : Text) (e : ℕ)
        → dispatch F server_os m s ≡ (fail x, t)
        → remote_error {A = B} client_os x ≡ Outcome.errno e
        → remote client_os m f (connected F server_os c (some s))
          ≡ (Outcome.errno e, connected F server_os c (some t))
    unfolding remote
    failed_across t x e h arrives =
        call_then-fail F server_os m _ _ c s t x h
        ∙ ap (λ (o : Outcome B). (o, connected F server_os c (some t))) arrives

    -- A request of any operation of the client but read, refused by the handler with any Go error,
    -- reaches the caller as the client's number for the error, or EIO where it has none, and ends
    -- the satellite exactly if a path or link error has no number.
    pub refused_across :
        (g : GoError) (t : Server F)
        → dispatch F server_os m s ≡ (errno_to_rpc_error_string server_os g, t)
        → remote client_os m f (connected F server_os c (some s))
          ≡ refused_with F server_os client_os c g t
    unfolding errno_to_rpc_error_string text_eq
    refused_across (path_error (errno_cause e)) t h =
        failed_across t _ _ h (named_arrives client_os server_os e)
    refused_across (link_error (errno_cause e)) t h =
        failed_across t _ _ h (named_arrives client_os server_os e)
    refused_across (syscall_errno e) t h =
        failed_across t _ _ h (named_arrives client_os server_os e)
    refused_across (path_error not_exist_cause) t h =
        panic_arrives F server_os client_os m f c s t h
    refused_across (path_error (other_cause x)) t h =
        panic_arrives F server_os client_os m f c s t h
    refused_across (link_error not_exist_cause) t h =
        panic_arrives F server_os client_os m f c s t h
    refused_across (link_error (other_cause x)) t h =
        panic_arrives F server_os client_os m f c s t h
    refused_across not_exist t h =
        failed_across t _ _ h (unnumbered_arrives client_os not_exist_text)
    refused_across (other x) t h =
        failed_across t _ _ (h ∙ one_failure x t) (unnumbered_arrives client_os x)

    -- A handler that makes one call, in a state that it has come to, and answers with its result.
    pub attempt_across :
        {C : Type 0} (t : Server F) (call : F.World → Try C × F.World) (g : C → A)
        → dispatch F server_os m s ≡ (attempt server_os call >>= λ v. pure (g v)) t
        → remote client_os m f (connected F server_os c (some s))
          ≡ answered F server_os client_os c t (λ v. f (g v)) (call t.world)
    unfolding remote pure
    attempt_across t call g h = by_answer (call t.world) refl
      where
        by_answer :
            (r : Try _ × F.World)
            → call t.world ≡ r
            → remote client_os m f (connected F server_os c (some s))
              ≡ answered F server_os client_os c t (λ v. f (g v)) r
        by_answer (done v, w) e =
            call_then-return F server_os m _ _ c s _ (g v) (
              h ∙ >>=-return (attempt server_os call) _ t _ v (attempt-done server_os call t v w e))
        by_answer (raise x, w) e = refused_across x _ (h ∙ >>=-raise server_os call _ t x w e)

module _ (F : FileSystem) (server_os client_os : Os) {A B : Type 0} (m : Method A) (f : A → B) where
  module _ (c : Client (satellite_rpc F server_os)) (s : Server F) where
    -- A handler that ends with one call.
    pub attempt_alone_across :
        (t : Server F) (call : F.World → Try A × F.World)
        → dispatch F server_os m s ≡ attempt server_os call t
        → remote client_os m f (connected F server_os c (some s))
          ≡ answered F server_os client_os c t f (call t.world)
    unfolding remote
    attempt_alone_across t call h = by_answer (call t.world) refl
      where
        by_answer :
            (r : Try A × F.World)
            → call t.world ≡ r
            → remote client_os m f (connected F server_os c (some s))
              ≡ answered F server_os client_os c t f r
        by_answer (done v, w) e =
            call_then-return F server_os m _ _ c s _ v (h ∙ attempt-done server_os call t v w e)
        by_answer (raise x, w) e =
            refused_across F server_os client_os m f c s x _
              (h ∙ attempt-raise server_os call t x w e)
