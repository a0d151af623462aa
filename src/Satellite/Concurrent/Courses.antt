-- ===== src/Satellite/Concurrent/Courses.antt =====
-- cmd/satellite/server/server.go: the handlers, access by access.
use dockerfuse.Base.{ℕ, Option, none, some, List, [], ◌∷◌}
use dockerfuse.Os.{Os}
use dockerfuse.RpcCommon.Error.{return}
use dockerfuse.RpcCommon.Flags.{sa_flags_to_system}
use dockerfuse.RpcCommon.SetAttr.{SetAttrRequest}
use dockerfuse.RpcCommon.Types.{
  DirEntry, StatRequest, StatReply, ReadDirRequest, ReadDirReply, OpenRequest, OpenReply,
  CloseRequest, MkdirRequest,
}
use dockerfuse.Satellite.FileSystem.{FileSystem}
use dockerfuse.Satellite.Table.{find, remove}
use dockerfuse.Satellite.Server.{Server, Handler, attempt, attempt_or, open_file_of}
use dockerfuse.Satellite.Paths.{stat_reply, file_info, append_entry}
use dockerfuse.Satellite.Descriptors.{register, read_file}
use dockerfuse.Satellite.Attributes.{set_mode_of, set_owner_of, set_times_of, set_size_of}
use dockerfuse.Satellite.Dispatch.{
  Method, stat, read_dir, open_path, close, read, seek, write, unlink, fsync, mkdir, rmdir, rename,
  readlink, link, symlink, set_attr,
}
use dockerfuse.Satellite.Concurrent.{Course, finish, atomic, ◌>>=◌, ◌>>◌, deferred}

module _ {F : FileSystem} where
  -- fso.fds[uintptrFD], and fd.Close() of what it holds.
  unfoldable pub look_up : ℕ → Handler F (Option F.File)
  look_up k s = (return (find s.fds k), s)

  unfoldable pub close_quietly : F.File → Handler F (Unit {0})
  close_quietly old s = (return tt, record s { world = (F.close old s.world).1 })

  unfoldable pub close_found : Option F.File → Course F (Unit {0})
  close_found none = finish (return tt)
  close_found (some old) = atomic (close_quietly old)

  -- delete(fso.fds, request.FD)
  abbrev pub delete_entry : ℕ → Server F → Server F
  delete_entry k s = record s { fds = remove s.fds k }

module _ (F : FileSystem) (os : Os) where
  unfoldable pub stat_course : StatRequest → Course F StatReply
  stat_course r = do
    sys ← atomic (attempt os (F.lstat r.full_path))
    target ← atomic (attempt_or [] (F.readlink r.full_path))
    finish (return (stat_reply sys target))

  unfoldable pub entries_course : List F.Entry → List DirEntry → Course F (List DirEntry)
  entries_course [] entries = finish (return entries)
  entries_course (file ∷ files) entries = do
    info ← atomic (file_info F os file)
    entries_course files (append_entry F os entries file info)

  unfoldable pub read_dir_course : ReadDirRequest → Course F ReadDirReply
  read_dir_course r = do
    files ← atomic (attempt os (F.read_dir r.full_path))
    entries ← entries_course files []
    finish (return (record { dir_entries = entries }))

  unfoldable pub describe_course : OpenRequest → F.File → Course F OpenReply
  describe_course r file = do
    sys ← atomic (attempt os (F.stat file))
    target ← atomic (attempt_or [] (F.readlink r.full_path))
    finish (return (record { fd = F.fd file; stat_reply = stat_reply sys target }))

  unfoldable pub open_course : OpenRequest → Course F OpenReply
  open_course r = do
    file ← atomic (attempt os (F.open_file r.full_path (sa_flags_to_system os r.sa_flags) r.mode))
    old ← atomic (look_up (F.fd file))
    close_found old
    atomic (register (F.fd file) file)
    describe_course r file

  unfoldable pub close_course : CloseRequest → Course F (Unit {0})
  close_course r = do
    file ← atomic (open_file_of os r.fd)
    deferred (delete_entry r.fd) (atomic (attempt os (F.close file)))

  -- A handler that looks its descriptor up and makes one call.
  unfoldable pub file_course : {A : Type 0} → ℕ → (F.File → Handler F A) → Course F A
  file_course k call = do file ← atomic (open_file_of os k); atomic (call file)

  unfoldable pub mkdir_course : MkdirRequest → Course F StatReply
  mkdir_course r = do
    atomic (attempt os (F.mkdir r.full_path r.mode))
    stat_course (record { full_path = r.full_path })

  unfoldable pub set_attr_course : SetAttrRequest → Course F StatReply
  set_attr_course r = do
    atomic (set_mode_of F os r)
    atomic (set_owner_of F os r)
    atomic (set_times_of F os r)
    atomic (set_size_of F os r)
    stat_course (record { full_path = r.full_path })

  unfoldable pub course : {A : Type 0} → Method A → Course F A
  course (stat r) = stat_course r
  course (read_dir r) = read_dir_course r
  course (open_path r) = open_course r
  course (close r) = close_course r
  course (read r) = file_course r.fd (read_file F os r)
  course (seek r) = do
    file ← atomic (open_file_of os r.fd)
    n ← atomic (attempt os (F.seek file r.offset r.whence))
    finish (return (record { num = n }))
  course (write r) = do
    file ← atomic (open_file_of os r.fd)
    n ← atomic (attempt os (F.write_at file r.bytes r.offset))
    finish (return (record { num = n }))
  course (unlink r) = atomic (attempt os (F.remove r.full_path))
  course (fsync r) = file_course r.fd (λ file. attempt os (F.sync file))
  course (mkdir r) = mkdir_course r
  course (rmdir r) = atomic (attempt os (F.remove r.full_path))
  course (rename r) = atomic (attempt os (F.rename r.full_path r.full_new_path))
  course (readlink r) = do
    target ← atomic (attempt os (F.readlink r.full_path))
    finish (return (record { link_target = target }))
  course (link r) = atomic (attempt os (F.link r.old_full_path r.new_full_path))
  course (symlink r) = atomic (attempt os (F.symlink r.old_full_path r.new_full_path))
  course (set_attr r) = set_attr_course r
