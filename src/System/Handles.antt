-- ===== src/System/Handles.antt =====
-- The operations of Node on file handles, from the kernel's side to the container's files.
use dockerfuse.Base.{ℕ, ◌≡◌, refl, ◌∙◌, ap, sym, Option, none, some, List, ◌^◌}
use dockerfuse.Base.Int.{ℤ, pos, to_i64, to_u64, to_unsigned}
use dockerfuse.Os.{Os}
use dockerfuse.Os.Errno.{ErrorName, errno}
use dockerfuse.RpcCommon.Error.{Result}
use dockerfuse.Satellite.FileSystem.{FileSystem, Try, done, raise}
use dockerfuse.Satellite.Table.{find, remove}
use dockerfuse.Satellite.Server.{Server, Handler, ◌>>=◌, attempt, open_file_of}
use dockerfuse.Satellite.Server.Laws.{
  >>=-return, >>=-fail, open_file_of-none, open_file_of-some, attempt-done, attempt-raise,
}
use dockerfuse.Satellite.Dispatch.{Method, dispatch}
use dockerfuse.Satellite.Descriptors
use dockerfuse.Client.Rpc.{Client, Action, Outcome, remote}
use dockerfuse.Client.Calls
use dockerfuse.Client.Calls.{uintptr}
use dockerfuse.Node.Operations
use dockerfuse.Node.Operations.{Node, answer}
use dockerfuse.System.Link.{satellite_rpc, connected}
use dockerfuse.System.Errors.{named_error_arrives, einval_named}
use dockerfuse.System.Refusals.{answered, attempt_alone_across, attempt_across}

module _ (F : FileSystem) (server_os client_os : Os) (c : Client (satellite_rpc F server_os))
    (s : Server F) where
  abbrev conn : Client (satellite_rpc F server_os)
  conn = connected F server_os c (some s)

  -- What the caller gets for a call on the file of a descriptor, where `t` is the satellite's state
  -- at the call, and `f` makes the result.
  unfoldable pub on_file :
      {A B : Type 0}
      → Option F.File
      → Server F
      → (A → B)
      → (F.File → F.World → Try A × F.World)
      → Outcome B × Client (satellite_rpc F server_os)
  on_file none t f call = (Outcome.errno (errno client_os ErrorName.einval), conn)
  on_file (some file) t f call = answered F server_os client_os c t f (call file t.world)

  -- A handler that looks its file up goes on with it, or answers EINVAL.
  module _ {A B C : Type 0} (m : Method A) (f : A → B) (k : ℕ) (h : F.File → Handler F A)
      (t : Server F) (g : C → B) (call : F.File → F.World → Try C × F.World)
      (looks_up : dispatch F server_os m s ≡ (open_file_of server_os k >>= h) s) where
    file_call_across :
        ((file : F.File)
          → dispatch F server_os m s ≡ h file s
          → remote client_os m f conn ≡ answered F server_os client_os c t g (call file t.world))
        → remote client_os m f conn ≡ on_file (find s.fds k) t g call
    unfolding on_file
    file_call_across found_across = by_entry (find s.fds k) refl
      where
        by_entry :
            (o : Option F.File) → find s.fds k ≡ o → remote client_os m f conn ≡ on_file o t g call
        by_entry none e =
            named_error_arrives F server_os client_os m f c s s ErrorName.einval einval_named (
              looks_up
              ∙ >>=-fail (open_file_of server_os k) h s s _ (open_file_of-none server_os k s e))
        by_entry (some file) e = found_across file (
            looks_up
            ∙ >>=-return (open_file_of server_os k) h s s file
                (open_file_of-some server_os k s file e))

  -- The satellite without a descriptor.
  abbrev pub without : ℕ → Server F
  without k = record s { fds = remove s.fds k }

  close_and_delete-attempt :
      (k : ℕ) (file : F.File)
      → Descriptors.close_and_delete F server_os k file s
        ≡ attempt server_os (F.close file) (without k)
  unfolding Descriptors.close_and_delete
  close_and_delete-attempt k file = by_answer (F.close file s.world) refl
    where
      deleted : Result (Unit {0}) × Server F → Result (Unit {0}) × Server F
      deleted r = (r.0, record r.1 { fds = remove r.1.fds k })

      by_answer :
          (r : Try (Unit {0}) × F.World)
          → F.close file s.world ≡ r
          → deleted (attempt server_os (F.close file) s)
            ≡ attempt server_os (F.close file) (without k)
      by_answer (done v, w) e =
          ap deleted (attempt-done server_os (F.close file) s v w e)
          ∙ sym (attempt-done server_os (F.close file) (without k) v w e)
      by_answer (raise x, w) e =
          ap deleted (attempt-raise server_os (F.close file) s x w e)
          ∙ sym (attempt-raise server_os (F.close file) (without k) x w e)

  pub calls_across :
      (k flags : ℕ) (offset whence : ℤ) (bytes : List ℕ)
      → let file = find s.fds k in
        (Calls.write client_os (uintptr k) offset bytes conn
          ≡ on_file file s (λ n. n) (λ f. F.write_at f bytes offset))
        × (Calls.seek client_os (uintptr k) offset whence conn
            ≡ on_file file s (λ n. n) (λ f. F.seek f offset whence))
        × (Calls.fsync client_os (uintptr k) flags conn ≡ on_file file s (λ v. v) F.sync)
        × (Calls.close client_os (uintptr k) conn ≡ on_file file (without k) (λ v. v) F.close)
  unfolding dispatch Calls.write Calls.seek Calls.fsync Calls.close Descriptors.write
      Descriptors.seek Descriptors.fsync Descriptors.close
  calls_across k flags offset whence bytes = (
    file_call_across _ _ k _ s _ _ refl
        (λ f e. attempt_across F server_os client_os _ _ c s s (F.write_at f bytes offset) _ e),
    file_call_across _ _ k _ s _ _ refl
        (λ f e. attempt_across F server_os client_os _ _ c s s (F.seek f offset whence) _ e),
    file_call_across _ _ k _ s _ _ refl
        (λ f e. attempt_alone_across F server_os client_os _ _ c s s (F.sync f) e),
    file_call_across _ _ k _ (without k) _ _ refl (λ f e.
        attempt_alone_across F server_os client_os _ _ c s (without k) (F.close f)
          (e ∙ close_and_delete-attempt k f)),
  )

  -- What an operation of Node makes of an answer of the client.
  abbrev finish :
      {A B : Type 0}
      → (A → B)
      → Outcome A × Client (satellite_rpc F server_os)
      → Outcome B × Client (satellite_rpc F server_os)
  finish h x = elim x.0 [
    | Outcome.done a ↦ (Outcome.done (h a), x.1)
    | Outcome.errno n ↦ (Outcome.errno n, x.1)
    | Outcome.panic ↦ (Outcome.panic, x.1)
  ]

  finish-on_file :
      {A B C : Type 0} (h : A → B) (f : C → A) (o : Option F.File) (t : Server F)
      (call : F.File → F.World → Try C × F.World)
      → finish h (on_file o t f call) ≡ on_file o t (λ v. h (f v)) call
  unfolding on_file
  finish-on_file h f none t call = refl
  finish-on_file h f (some file) t call = by_answer (call file t.world)
    where
      by_answer :
          (r : Try _ × F.World)
          → finish h (answered F server_os client_os c t f r)
            ≡ answered F server_os client_os c t (λ v. h (f v)) r
      by_answer (done v, w) = refl
      by_answer (raise x, w) = refl

  then_answer :
      {A B C : Type 0} (m : Action (satellite_rpc F server_os) A) (h : A → B) (f : C → A)
      (o : Option F.File) (t : Server F) (call : F.File → F.World → Try C × F.World)
      → m conn ≡ on_file o t f call
      → Operations.◌>>=◌ m (λ a. answer (h a)) conn ≡ on_file o t (λ v. h (f v)) call
  unfolding answer Operations.◌>>=◌
  then_answer m h f o t call e = ap (finish h) e ∙ finish-on_file h f o t call

  -- On a descriptor that the satellite does not list, Write, Lseek, Fsync, Flush and Release of a
  -- node answer EINVAL and change nothing; on one that it lists, they are the one call of the
  -- operating system on its file, where Flush and Release leave the table without the descriptor
  -- whatever Close answers, and each answer of the call arrives: Write's count as 32 bits, Lseek's
  -- as 64, an error as the client's number, and one without a number as EIO, where a path or link
  -- error without one ends the satellite.
  pub handle_calls_across :
      (n : Node) (k off whence flags : ℕ) (offset : ℤ) (bytes : List ℕ)
      → let file = find s.fds k in
        (Operations.write client_os n (uintptr k) bytes offset conn
          ≡ on_file file s (to_unsigned (2 ^ 32)) (λ f. F.write_at f bytes offset))
        × (Operations.lseek client_os n (uintptr k) off whence conn
            ≡ on_file file s to_u64 (λ f. F.seek f (to_i64 off) (pos whence)))
        × (Operations.fsync client_os n (uintptr k) flags conn ≡ on_file file s (λ v. v) F.sync)
        × (Operations.flush client_os n (uintptr k) conn
            ≡ on_file file (without k) (λ v. v) F.close)
        × (Operations.release client_os n (uintptr k) conn
            ≡ on_file file (without k) (λ v. v) F.close)
  unfolding Operations.write Operations.lseek Operations.fsync Operations.flush Operations.release
  handle_calls_across n k off whence flags offset bytes =
      let (written, _, synced, closed) = calls_across k flags offset (pos whence) bytes in
      let (_, sought, _, _) = calls_across k flags (to_i64 off) (pos whence) bytes in
      (then_answer _ _ _ _ _ _ written, then_answer _ _ _ _ _ _ sought, synced, closed, closed)
