-- ===== src/Satellite/Descriptors.antt =====
-- cmd/satellite/server/server.go: the handlers that work on open files.
use dockerfuse.Base.{ℕ, Option, none, some, List, [], length, ltb, ◌&&◌, if◌then◌else◌}
use dockerfuse.Base.Int.{pos, negsuc}
use dockerfuse.Os.{Os}
use dockerfuse.RpcCommon.Error.{Result, GoError, return, panic, is_eof, errno_to_rpc_error_string}
use dockerfuse.RpcCommon.Flags.{sa_flags_to_system}
use dockerfuse.RpcCommon.Types.{
  OpenRequest, OpenReply, CloseRequest, ReadRequest, ReadReply, SeekRequest, SeekReply,
  WriteRequest, WriteReply, FsyncRequest,
}
use dockerfuse.Satellite.FileSystem.{FileSystem}
use dockerfuse.Satellite.Table.{find, store, remove}
use dockerfuse.Satellite.Server.{Handler, pure, ◌>>=◌, ◌>>◌, attempt, attempt_or, open_file_of}
use dockerfuse.Satellite.Paths.{stat_reply}

module _ {F : FileSystem} where
  -- if fd, ok := fso.fds[uintptrFD]; ok { fd.Close() }
  unfoldable pub close_stale : ℕ → Handler F (Unit {0})
  close_stale k s = elim (find s.fds k) [
    | none ↦ (return tt, s)
    | some old ↦ (return tt, record s { world = (F.close old s.world).1 })
  ]

  -- fso.fds[uintptrFD] = fd
  unfoldable pub register : ℕ → F.File → Handler F (Unit {0})
  register k file s = (return tt, record s { fds = store s.fds k file })

module _ (F : FileSystem) (os : Os) where
  -- Open, once its file is in the table.
  unfoldable pub describe_open : OpenRequest → F.File → Handler F OpenReply
  describe_open r file = do
    sys ← attempt os (F.stat file)
    target ← attempt_or [] (F.readlink r.full_path)
    pure (record { fd = F.fd file; stat_reply = stat_reply sys target })

  -- Open
  unfoldable pub open_path : OpenRequest → Handler F OpenReply
  open_path r = do
    file ← attempt os (F.open_file r.full_path (sa_flags_to_system os r.sa_flags) r.mode)
    close_stale (F.fd file)
    register (F.fd file) file
    describe_open r file

  -- The deferred `delete` runs after Close, whatever it answers.
  unfoldable pub close_and_delete : ℕ → F.File → Handler F (Unit {0})
  unfolding attempt
  close_and_delete k file s =
      let (answer, s') = attempt os (F.close file) s in
      (answer, record s' { fds = remove s'.fds k })

  -- Close
  unfoldable pub close : CloseRequest → Handler F (Unit {0})
  close r = do file ← open_file_of os r.fd; close_and_delete r.fd file

  -- What Read makes of the bytes and the error of ReadAt: at the end of the file the bytes count as
  -- success, unless there are none.
  unfoldable pub read_answer : List ℕ → Option GoError → Result ReadReply
  read_answer bytes none = return (record { bytes = bytes })
  read_answer bytes (some e) =
      if is_eof e && ltb 0 (length bytes)
      then return (record { bytes = bytes })
      else errno_to_rpc_error_string os e

  -- make([]byte, Num) panics on a negative number.
  unfoldable pub read_file : ReadRequest → F.File → Handler F ReadReply
  unfolding read_answer
  read_file r file s = elim r.num [
    | negsuc _ ↦ (panic, s)
    | pos num ↦
        let ((bytes, err), w) = F.read_at file num r.offset s.world in
        (read_answer bytes err, record s { world = w })
  ]

  -- Read
  unfoldable pub read : ReadRequest → Handler F ReadReply
  read r = do file ← open_file_of os r.fd; read_file r file

  unfoldable pub seek : SeekRequest → Handler F SeekReply
  seek r = do
    file ← open_file_of os r.fd
    n ← attempt os (F.seek file r.offset r.whence)
    pure (record { num = n })

  unfoldable pub write : WriteRequest → Handler F WriteReply
  write r = do
    file ← open_file_of os r.fd
    n ← attempt os (F.write_at file r.bytes r.offset)
    pure (record { num = n })

  unfoldable pub fsync : FsyncRequest → Handler F (Unit {0})
  fsync r = do file ← open_file_of os r.fd; attempt os (F.sync file)
