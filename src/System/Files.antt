-- ===== src/System/Files.antt =====
-- Open files from the client's side.
use dockerfuse.Base.{ℕ, ◌≡◌, ◌∙◌, ap, ◌≢◌, Option, none, some, List, [], ◌∷◌, arith, if◌then◌else◌}
use dockerfuse.Base.Int.{ℤ, pos, negsuc}
use dockerfuse.Base.Text.{Text, text_eq}
use dockerfuse.Os.{Os}
use dockerfuse.Os.Errno.{ErrorName, errno}
use dockerfuse.RpcCommon.Error.{
  other_cause, return, fail, GoError, path_error, other, eof, errno_text, errno_to_rpc_error_string,
}
use dockerfuse.RpcCommon.Types.{ReadRequest, ReadReply}
use dockerfuse.Satellite.FileSystem.{FileSystem, Try}
use dockerfuse.Satellite.Table.{find, remove, find-remove}
use dockerfuse.Satellite.Server.{Server, Handler, ◌>>=◌, open_file_of}
use dockerfuse.Satellite.Server.Laws.{
  >>=-return, >>=-fail, open_file_of-none, open_file_of-some, attempt-done,
}
use dockerfuse.Satellite.Dispatch
use dockerfuse.Satellite.Dispatch.{Method, dispatch}
use dockerfuse.Satellite.Descriptors
use dockerfuse.Client.Rpc.{Client, Outcome, remote, remote_error, call_then}
use dockerfuse.Client.Calls
use dockerfuse.Client.Calls.{FileHandle, uintptr}
use dockerfuse.System.Link.{
  satellite_rpc, connected, call_then-return, call_then-fail, call_then-panic,
}
use dockerfuse.System.Handles.{on_file, calls_across}
use dockerfuse.System.Errors.{remote_error-errno_text, remote_error-lost, einval_named}

module _ (F : FileSystem) (server_os client_os : Os) (c : Client (satellite_rpc F server_os)) where
  -- A request on a descriptor in the table goes to its file.
  read_found :
      (r : ReadRequest) (s : Server F) (file : F.File)
      → find s.fds r.fd ≡ some file
      → dispatch F server_os (Dispatch.read r) s ≡ Descriptors.read_file F server_os r file s
  unfolding dispatch Descriptors.read
  read_found r s file found =
      >>=-return (open_file_of server_os r.fd) _ s s file
        (open_file_of-some server_os r.fd s file found)

  -- ReadAt reported no error, or the end of the file.
  abbrev pub EndOfFile : Option GoError → Type 0
  EndOfFile none = Unit
  EndOfFile (some e) = e ≡ other eof

  module _ (s : Server F) (k num : ℕ) (offset : ℤ) (file : F.File) (bytes : List ℕ)
      (end : Option GoError) (w : F.World) where
    abbrev request : ReadRequest
    request = record { fd = k; offset = offset; num = pos num }

    read-dispatch :
        find s.fds k ≡ some file
        → F.read_at file num offset s.world ≡ ((bytes, end), w)
        → dispatch F server_os (Dispatch.read request) s
          ≡ (Descriptors.read_answer F server_os bytes end, record s { world = w })
    unfolding Descriptors.read_file
    read-dispatch found e = read_found request s file found ∙ ground arith

  -- What the client makes of Read's answer to a successful ReadAt.
  answer_across :
      (s t : Server F) (m : Method ReadReply) (bytes : List ℕ) (end : Option GoError)
      → EndOfFile end
      → dispatch F server_os m s ≡ (Descriptors.read_answer F server_os bytes end, t)
      → call_then m
          (λ r. Outcome.done r.bytes)
          (λ t. if text_eq t eof then Outcome.done [] else remote_error client_os t)
          (connected F server_os c (some s))
        ≡ (Outcome.done bytes, connected F server_os c (some t))
  unfolding Descriptors.read_answer errno_to_rpc_error_string text_eq
  answer_across s t m bytes none at_end e =
      call_then-return F server_os m _ _ c s t (record { bytes = bytes }) e
  answer_across s t m (b ∷ bytes) (some err) at_end e =
      call_then-return F server_os m _ _ c s t (record { bytes = b ∷ bytes })
        (e ∙ rw at_end (ground arith))
  answer_across s t m [] (some err) at_end e =
      call_then-fail F server_os m _ _ c s t eof (e ∙ rw at_end)

  -- If ReadAt on a listed file reports no error, or the end of the file, then a read returns
  -- exactly the bytes that it read, without an error, also where there are fewer than asked for or
  -- none.
  pub read_across :
      (s : Server F) (k num : ℕ) (offset : ℤ) (file : F.File) (bytes : List ℕ)
      (end : Option GoError) (w : F.World)
      → find s.fds k ≡ some file
      → F.read_at file num offset s.world ≡ ((bytes, end), w)
      → EndOfFile end
      → Calls.read client_os (uintptr k) offset (pos num) (connected F server_os c (some s))
        ≡ (Outcome.done bytes, connected F server_os c (some (record s { world = w })))
  unfolding Calls.read
  read_across s k num offset file bytes end w found e at_end =
      answer_across s _ _ bytes end at_end (read-dispatch s k num offset file bytes end w found e)

  -- A read of a listed file at a negative offset answers EIO and ends the satellite, if ReadAt
  -- refuses it with a path error that holds no number.
  pub read_negative_offset :
      (s : Server F) (k num n : ℕ) (file : F.File) (bytes : List ℕ) (reason : Text) (w : F.World)
      → find s.fds k ≡ some file
      → F.read_at file num (negsuc n) s.world ≡ ((bytes, some (path_error (other_cause reason))), w)
      → Calls.read client_os (uintptr k) (negsuc n) (pos num) (connected F server_os c (some s))
        ≡ (Outcome.errno (errno client_os ErrorName.eio), connected F server_os c none)
  unfolding Calls.read Descriptors.read_answer errno_to_rpc_error_string text_eq
  read_negative_offset s k num n file bytes reason w found e =
      call_then-panic F server_os _ _ _ c s _
        (read-dispatch s k num (negsuc n) file bytes _ w found e)
      ∙ ap (λ (o : Outcome (List ℕ)). (o, connected F server_os c none))
          (remote_error-lost client_os)

  -- A request on a number that the table does not hold.
  missing_file :
      {A : Type 0} (k : ℕ) (f : F.File → Handler F A) (s : Server F)
      → find s.fds k ≡ none
      → (open_file_of server_os k >>= f) s
        ≡ (fail (errno_text server_os (errno server_os ErrorName.einval)), s)
  missing_file k f s missing =
      >>=-fail (open_file_of server_os k) f s s _ (open_file_of-none server_os k s missing)

  -- The text of a named error is not "EOF", so that a failed read is reported.
  read_named_error :
      (s : Server F) (k num : ℕ) (offset : ℤ) (t : Server F) (n : ErrorName)
      → n ≢ ErrorName.eopnotsupp
      → dispatch F server_os (Dispatch.read (record { fd = k; offset = offset; num = pos num })) s
        ≡ (fail (errno_text server_os (errno server_os n)), t)
      → Calls.read client_os (uintptr k) offset (pos num) (connected F server_os c (some s))
        ≡ (Outcome.errno (errno client_os n), connected F server_os c (some t))
  unfolding Calls.read text_eq errno_text
  read_named_error s k num offset t n named e =
      call_then-fail F server_os _ _ _ c s t _ e
      ∙ ap (λ (o : Outcome (List ℕ)). (o, connected F server_os c (some t)))
          (remote_error-errno_text client_os server_os n named)

  abbrev einval : {A : Type 0} → Server F → Outcome A × Client (satellite_rpc F server_os)
  einval s = (Outcome.errno (errno client_os ErrorName.einval), connected F server_os c (some s))

  -- Close, read, write, seek and fsync on a descriptor that the satellite does not list answer
  -- EINVAL and change nothing.
  unlisted_einval :
      (s : Server F) (k num flags : ℕ) (offset whence : ℤ) (bytes : List ℕ)
      → find s.fds k ≡ none
      → let conn = connected F server_os c (some s) in
        (Calls.close client_os (uintptr k) conn ≡ einval s)
        × (Calls.read client_os (uintptr k) offset (pos num) conn ≡ einval s)
        × (Calls.write client_os (uintptr k) offset bytes conn ≡ einval s)
        × (Calls.seek client_os (uintptr k) offset whence conn ≡ einval s)
        × (Calls.fsync client_os (uintptr k) flags conn ≡ einval s)
  unfolding dispatch Calls.read Descriptors.read on_file
  unlisted_einval s k num flags offset whence bytes missing =
      let (wr, se, fs, cl) = calls_across F server_os client_os c s k flags offset whence bytes in
      (
        cl ∙ rw missing,
        read_named_error s k num offset s ErrorName.einval einval_named
            (missing_file k _ s missing),
        wr ∙ rw missing,
        se ∙ rw missing,
        fs ∙ rw missing,
      )

  -- What Close leaves, when the operating system's close succeeds.
  close_done :
      (s : Server F) (k : ℕ) (file : F.File) (w : F.World)
      → find s.fds k ≡ some file
      → F.close file s.world ≡ (Try.done tt, w)
      → dispatch F server_os (Dispatch.close (record { fd = k })) s
        ≡ (return tt, record { fds = remove s.fds k; world = w })
  unfolding dispatch Descriptors.close Descriptors.close_and_delete
  close_done s k file w found e =
      >>=-return (open_file_of server_os k) _ s s file (open_file_of-some server_os k s file found)
      ∙ rw (attempt-done server_os (F.close file) s tt w e)

  -- Node.Flush and Node.Release both call `close`. Once the first has closed a file, the second and
  -- every other operation on the handle answer EINVAL.
  pub close_then_einval :
      (s : Server F) (k num flags : ℕ) (offset whence : ℤ) (bytes : List ℕ) (file : F.File)
      (w : F.World)
      → find s.fds k ≡ some file
      → F.close file s.world ≡ (Try.done tt, w)
      → let t : Server F = record { fds = remove s.fds k; world = w } in
        let conn = connected F server_os c (some t) in
        (Calls.close client_os (uintptr k) (connected F server_os c (some s))
          ≡ (Outcome.done tt, conn))
        × (Calls.close client_os (uintptr k) conn ≡ einval t)
        × (Calls.read client_os (uintptr k) offset (pos num) conn ≡ einval t)
        × (Calls.write client_os (uintptr k) offset bytes conn ≡ einval t)
        × (Calls.seek client_os (uintptr k) offset whence conn ≡ einval t)
        × (Calls.fsync client_os (uintptr k) flags conn ≡ einval t)
  unfolding Calls.close remote
  close_then_einval s k num flags offset whence bytes file w found e =
      let t : Server F = record { fds = remove s.fds k; world = w } in
      let missing : find t.fds k ≡ none = rw find-remove (ground arith) in
      let (c', r, wr, se, fs) = unlisted_einval t k num flags offset whence bytes missing in
      (
        call_then-return F server_os _ _ _ c s t tt (close_done s k file w found e),
        c',
        r,
        wr,
        se,
        fs,
      )
