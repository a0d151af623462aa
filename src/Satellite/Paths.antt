-- ===== src/Satellite/Paths.antt =====
-- cmd/satellite/server/server.go: the handlers that work on paths.
use dockerfuse.Base.{
  Bool, true, false, Option, none, some, List, [], ◌∷◌, ◌++◌, ◌==◌, if◌then◌else◌,
}
use dockerfuse.Base.Int.{to_i32, to_u32}
use dockerfuse.Base.Text.{Text}
use dockerfuse.Os.{Os}
use dockerfuse.Os.Errno.{ErrorName, errno}
use dockerfuse.RpcCommon.Error.{
  errno_cause, not_exist_cause, GoError, path_error, link_error, syscall_errno, not_exist, return,
}
use dockerfuse.RpcCommon.Types.{
  DirEntry, StatRequest, StatReply, ReadDirRequest, ReadDirReply, UnlinkRequest, MkdirRequest,
  RmdirRequest, RenameRequest, ReadlinkRequest, ReadlinkReply, LinkRequest, SymlinkRequest,
}
use dockerfuse.Satellite.FileSystem.{FileSystem, Stat, done, raise}
use dockerfuse.Satellite.Server.{Server, Handler, pure, ◌>>=◌, ◌>>◌, refuse, attempt, attempt_or}

-- The assignments to the reply, which Stat and Open share, with their conversions.
unfoldable pub stat_reply : Stat → Text → StatReply
stat_reply sys target = record {
  mode = to_u32 sys.mode;
  nlink = to_u32 sys.nlink;
  ino = sys.ino;
  uid = sys.uid;
  gid = sys.gid;
  atime = sys.atime;
  mtime = sys.mtime;
  ctime = sys.ctime;
  size = sys.size;
  blocks = sys.blocks;
  blksize = to_i32 sys.blksize;
  link_target = target;
}

-- errors.Is(err, fs.ErrNotExist): the sentinel, or ENOENT, also inside a path or link error.
unfoldable pub is_not_exist : Os → GoError → Bool
is_not_exist os not_exist = true
is_not_exist os (path_error not_exist_cause) = true
is_not_exist os (link_error not_exist_cause) = true
is_not_exist os (path_error (errno_cause e)) = e == errno os ErrorName.enoent
is_not_exist os (link_error (errno_cause e)) = e == errno os ErrorName.enoent
is_not_exist os (syscall_errno e) = e == errno os ErrorName.enoent
is_not_exist os _ = false

module _ (F : FileSystem) (os : Os) where
  unfoldable pub stat : StatRequest → Handler F StatReply
  stat r = do
    sys ← attempt os (F.lstat r.full_path)
    target ← attempt_or [] (F.readlink r.full_path)
    pure (stat_reply sys target)

  abbrev pub dir_entry : F.Entry → Stat → DirEntry
  dir_entry file sys = record { mode = to_u32 sys.mode; name = F.entry_name file; ino = sys.ino }

  -- file.Info() in the loop of ReadDir: `none` is a file that has been removed since the directory
  -- was read, and any other error is answered with EIO.
  unfoldable pub file_info : F.Entry → Handler F (Option Stat)
  unfolding is_not_exist refuse
  file_info file s =
      let (r, w) = F.entry_info file s.world in
      let s' : Server F = record { fds = s.fds; world = w } in
      elim r [
        | done sys ↦ (return (some sys), s')
        | raise e ↦
            if is_not_exist os e
            then (return none, s')
            else refuse os (syscall_errno (errno os ErrorName.eio)) s'
      ]

  abbrev pub append_entry : List DirEntry → F.Entry → Option Stat → List DirEntry
  append_entry entries file none = entries
  append_entry entries file (some sys) = entries ++ (dir_entry file sys ∷ [])

  -- The loop of ReadDir over the files, with the entries appended so far.
  unfoldable pub read_entries : List F.Entry → List DirEntry → Handler F (List DirEntry)
  read_entries [] entries = pure entries
  read_entries (file ∷ files) entries = do
    info ← file_info file
    read_entries files (append_entry entries file info)

  unfoldable pub read_dir : ReadDirRequest → Handler F ReadDirReply
  read_dir r = do
    files ← attempt os (F.read_dir r.full_path)
    entries ← read_entries files []
    pure (record { dir_entries = entries })

  unfoldable pub unlink : UnlinkRequest → Handler F (Unit {0})
  unlink r = attempt os (F.remove r.full_path)

  unfoldable pub mkdir : MkdirRequest → Handler F StatReply
  mkdir r = do attempt os (F.mkdir r.full_path r.mode); stat (record { full_path = r.full_path })

  unfoldable pub rmdir : RmdirRequest → Handler F (Unit {0})
  rmdir r = attempt os (F.remove r.full_path)

  unfoldable pub rename : RenameRequest → Handler F (Unit {0})
  rename r = attempt os (F.rename r.full_path r.full_new_path)

  unfoldable pub readlink : ReadlinkRequest → Handler F ReadlinkReply
  readlink r = do
    target ← attempt os (F.readlink r.full_path)
    pure (record { link_target = target })

  unfoldable pub link : LinkRequest → Handler F (Unit {0})
  link r = attempt os (F.link r.old_full_path r.new_full_path)

  unfoldable pub symlink : SymlinkRequest → Handler F (Unit {0})
  symlink r = attempt os (F.symlink r.old_full_path r.new_full_path)
