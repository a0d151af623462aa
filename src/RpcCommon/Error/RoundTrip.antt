-- ===== src/RpcCommon/Error/RoundTrip.antt =====
-- Errors from one side to the other.
use dockerfuse.Base.{ℕ, ◌≡◌, sym, ◌∙◌, ap, ◌≢◌, ◌<◌, some, ◌++◌, Bool-cases, inl, inr}
use dockerfuse.Base.Text.{
  Text, str, text_eq, text_eq_iff, has_prefix, has_prefix-append, has_prefix_rest, split_second,
}
use dockerfuse.Os.{Os}
use dockerfuse.Os.Errno.{ErrorName, errno}
use dockerfuse.RpcCommon.Sym.{errno_to_sym, sym_to_errno}
use dockerfuse.RpcCommon.Sym.RoundTrip.{sym_to_errno-errno_to_sym, sym_to_errno_pos, errno_pos}
use dockerfuse.RpcCommon.Error.{
  errno_cause, path_error, link_error, syscall_errno, other, Result, return, fail, panic, eof,
  errno_text, errno_to_rpc_error_string, rpc_error_string_to_errno,
}

-- A text with the prefix is read as the symbol that follows it.
pub rpc_error_string_to_errno-errno :
    (os : Os) (sym : Text)
    → rpc_error_string_to_errno os (str "errno: " ++ sym) ≡ some (sym_to_errno os sym)
unfolding rpc_error_string_to_errno split_second
rpc_error_string_to_errno-errno os sym = rw (has_prefix-append (str "errno: ") sym)

-- RPCErrorStringTOErrno neither panics nor answers 0, whatever text has arrived.
pub rpc_error_string_to_errno_total :
    (os : Os) (err : Text) → (e : ℕ) × (rpc_error_string_to_errno os err ≡ some e) × (0 < e)
unfolding rpc_error_string_to_errno
rpc_error_string_to_errno_total os err = elim (Bool-cases (has_prefix (str "errno: ") err)) [
  | inl prefixed ↦
      let (sym, e) = has_prefix_rest (str "errno: ") err prefixed in
      (
        sym_to_errno os sym,
        ap (rpc_error_string_to_errno os) e ∙ rpc_error_string_to_errno-errno os sym,
        sym_to_errno_pos os sym,
      )
  | inr bare ↦ (errno os ErrorName.eio, rw bare, errno_pos os ErrorName.eio)
]

-- The error that the client of system `a` makes of a handler's failure in a satellite of system `b`.
abbrev pub Arrives {ℓ} : {A : Type ℓ} → Os → Result A → ℕ → Type 0
Arrives a (fail t) e = rpc_error_string_to_errno a t ≡ some e
Arrives a (return _) e = ⊥
Arrives a panic e = ⊥

-- An operation that fails in the satellite with a named error other than EOPNOTSUPP, plain or in a
-- path or link error, is seen by the client as its own system's number for that error.
pub errno-Arrives :
    (a b : Os) (n : ErrorName)
    → n ≢ ErrorName.eopnotsupp
    → let e = errno b n in
      Arrives a (errno_to_rpc_error_string {A = ℕ} b (syscall_errno e)) (errno a n)
      × Arrives a (errno_to_rpc_error_string {A = ℕ} b (path_error (errno_cause e))) (errno a n)
      × Arrives a (errno_to_rpc_error_string {A = ℕ} b (link_error (errno_cause e))) (errno a n)
unfolding errno_to_rpc_error_string errno_text
errno-Arrives a b n h =
    let e =
      rpc_error_string_to_errno-errno a (errno_to_sym b (errno b n))
      ∙ ap some (sym_to_errno-errno_to_sym b a n h) in
    (e, e, e)

-- Every error that is no errno, path error or link error arrives as EIO.
pub other-Arrives :
    (a b : Os) (t : Text)
    → Arrives a (errno_to_rpc_error_string {A = ℕ} b (other t)) (errno a ErrorName.eio)
unfolding errno_to_rpc_error_string rpc_error_string_to_errno has_prefix text_eq
other-Arrives a b t = elim (Bool-cases (text_eq t eof)) [
  | inl at_eof ↦ rw ((text_eq_iff t eof).0 at_eof)
  | inr unknown ↦ rw unknown
]
