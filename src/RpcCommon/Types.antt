-- ===== src/RpcCommon/Types.antt =====
-- pkg/rpccommon/rpc_types.go: the messages. Unsigned fields are natural numbers below the power of
-- two of their type, signed ones are integers; the conversions between them are in Base.Int.
use dockerfuse.Base.{ℕ, List}
use dockerfuse.Base.Int.{ℤ}
use dockerfuse.Base.Text.{Text}

pub record DirEntry : Type 0 where
  pub mode : ℕ
  pub name : Text
  pub ino : ℕ

pub record ReadDirRequest : Type 0 where
  pub full_path : Text

pub record ReadDirReply : Type 0 where
  pub dir_entries : List DirEntry

pub record StatRequest : Type 0 where
  pub full_path : Text

pub record StatReply : Type 0 where
  pub mode : ℕ
  pub nlink : ℕ
  pub ino : ℕ
  pub uid : ℕ
  pub gid : ℕ
  pub atime : ℤ
  pub mtime : ℤ
  pub ctime : ℤ
  pub size : ℤ
  pub blocks : ℤ
  pub blksize : ℤ
  pub link_target : Text

pub record OpenRequest : Type 0 where
  pub full_path : Text
  pub sa_flags : ℕ
  pub mode : ℕ

-- The embedded StatReply's fields are the reply's own: `r.size`.
pub record OpenReply : Type 0 where
  pub fd : ℕ
  pub stat_reply : StatReply
  pub open stat_reply use *

pub record CloseRequest : Type 0 where
  pub fd : ℕ

abbrev pub CloseReply : Type 0
CloseReply = Unit {0}

pub record ReadRequest : Type 0 where
  pub fd : ℕ
  pub offset : ℤ
  pub num : ℤ

pub record ReadReply : Type 0 where
  pub bytes : List ℕ

pub record SeekRequest : Type 0 where
  pub fd : ℕ
  pub offset : ℤ
  pub whence : ℤ

pub record SeekReply : Type 0 where
  pub num : ℤ

pub record WriteRequest : Type 0 where
  pub fd : ℕ
  pub offset : ℤ
  pub bytes : List ℕ

pub record WriteReply : Type 0 where
  pub num : ℤ

pub record UnlinkRequest : Type 0 where
  pub full_path : Text

abbrev pub UnlinkReply : Type 0
UnlinkReply = Unit {0}

pub record FsyncRequest : Type 0 where
  pub fd : ℕ
  pub flags : ℕ

abbrev pub FsyncReply : Type 0
FsyncReply = Unit {0}

pub record MkdirRequest : Type 0 where
  pub full_path : Text
  pub mode : ℕ

abbrev pub MkdirReply : Type 0
MkdirReply = StatReply

pub record RmdirRequest : Type 0 where
  pub full_path : Text

abbrev pub RmdirReply : Type 0
RmdirReply = Unit {0}

pub record RenameRequest : Type 0 where
  pub full_path : Text
  pub full_new_path : Text
  pub flags : ℕ

abbrev pub RenameReply : Type 0
RenameReply = Unit {0}

pub record ReadlinkRequest : Type 0 where
  pub full_path : Text

pub record ReadlinkReply : Type 0 where
  pub link_target : Text

pub record LinkRequest : Type 0 where
  pub old_full_path : Text
  pub new_full_path : Text

abbrev pub LinkReply : Type 0
LinkReply = Unit {0}

pub record SymlinkRequest : Type 0 where
  pub old_full_path : Text
  pub new_full_path : Text

abbrev pub SymlinkReply : Type 0
SymlinkReply = Unit {0}

-- time.Time as the seconds since 1970 and the nanoseconds within the second.
pub record Time : Type 0 where
  pub sec : ℤ
  pub nsec : ℕ
