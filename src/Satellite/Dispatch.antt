-- ===== src/Satellite/Dispatch.antt =====
-- net/rpc on the satellite's side: a request names a method of DockerFuseFSOps and carries its
-- argument.
use dockerfuse.Os.{Os}
use dockerfuse.RpcCommon.SetAttr.{SetAttrRequest, SetAttrReply}
use dockerfuse.RpcCommon.Types.{
  StatRequest, StatReply, ReadDirRequest, ReadDirReply, OpenRequest, OpenReply, CloseRequest,
  ReadRequest, ReadReply, SeekRequest, SeekReply, WriteRequest, WriteReply, UnlinkRequest,
  FsyncRequest, MkdirRequest, RmdirRequest, RenameRequest, ReadlinkRequest, ReadlinkReply,
  LinkRequest, SymlinkRequest, CloseReply, UnlinkReply, FsyncReply, MkdirReply, RmdirReply,
  RenameReply, LinkReply, SymlinkReply,
}
use dockerfuse.Satellite.FileSystem.{FileSystem}
use dockerfuse.Satellite.Server.{Handler}
use dockerfuse.Satellite.Paths
use dockerfuse.Satellite.Descriptors
use dockerfuse.Satellite.Attributes

-- A method by the type of its reply.
pub data Method : Type 0 → Type 1 where
  stat : StatRequest → Method StatReply
  read_dir : ReadDirRequest → Method ReadDirReply
  open_path : OpenRequest → Method OpenReply
  close : CloseRequest → Method CloseReply
  read : ReadRequest → Method ReadReply
  seek : SeekRequest → Method SeekReply
  write : WriteRequest → Method WriteReply
  unlink : UnlinkRequest → Method UnlinkReply
  fsync : FsyncRequest → Method FsyncReply
  mkdir : MkdirRequest → Method MkdirReply
  rmdir : RmdirRequest → Method RmdirReply
  rename : RenameRequest → Method RenameReply
  readlink : ReadlinkRequest → Method ReadlinkReply
  link : LinkRequest → Method LinkReply
  symlink : SymlinkRequest → Method SymlinkReply
  set_attr : SetAttrRequest → Method SetAttrReply

unfoldable pub dispatch : (F : FileSystem) → Os → {A : Type 0} → Method A → Handler F A
dispatch F os (stat r) = Paths.stat F os r
dispatch F os (read_dir r) = Paths.read_dir F os r
dispatch F os (open_path r) = Descriptors.open_path F os r
dispatch F os (close r) = Descriptors.close F os r
dispatch F os (read r) = Descriptors.read F os r
dispatch F os (seek r) = Descriptors.seek F os r
dispatch F os (write r) = Descriptors.write F os r
dispatch F os (unlink r) = Paths.unlink F os r
dispatch F os (fsync r) = Descriptors.fsync F os r
dispatch F os (mkdir r) = Paths.mkdir F os r
dispatch F os (rmdir r) = Paths.rmdir F os r
dispatch F os (rename r) = Paths.rename F os r
dispatch F os (readlink r) = Paths.readlink F os r
dispatch F os (link r) = Paths.link F os r
dispatch F os (symlink r) = Paths.symlink F os r
dispatch F os (set_attr r) = Attributes.set_attr F os r
