-- ===== src/Node/Operations.antt =====
-- cmd/dockerfuse/client/dockerfuse_fs.go: the operations of Node. Each calls the client and makes of
-- its answer what go-fuse gets. NewPersistentInode is go-fuse's; a new inode is shown as the Node it
-- holds and the StableAttr it gets.
pub mod Children
pub mod Modes
use dockerfuse.Base.{ℕ, Bool, List, [], ◌^◌, if◌then◌else◌}
use dockerfuse.Base.Bits.{has}
use dockerfuse.Base.Int.{ℤ, pos, to_i64, to_u64, to_unsigned}
use dockerfuse.Base.Text.{Text}
use dockerfuse.Os.{Os}
use dockerfuse.RpcCommon.Types.{DirEntry}
use dockerfuse.Client.Rpc.{Rpc, Client, Outcome, done, errno, panic, Action}
use dockerfuse.Client.Calls
use dockerfuse.Client.Calls.{FileHandle, StatAttr, SetAttrIn}
use dockerfuse.Node.Paths.{child_path}

-- The client is the state of an Action.
pub record Node : Type 0 where
  pub node_data : Text
  pub full_path : Text

abbrev pub new_node : Text → Text → Node
new_node full_path link_target = record { node_data = link_target; full_path = full_path }

-- fusefs.StableAttr
pub record StableAttr : Type 0 where
  pub mode : ℕ
  pub ino : ℕ

-- A new inode.
pub record Child : Type 0 where
  pub node : Node
  pub stable : StableAttr

-- The constants of package fuse.
abbrev pub s_ifdir : ℕ
s_ifdir = 16384

abbrev pub s_ifreg : ℕ
s_ifreg = 32768

abbrev pub s_iflnk : ℕ
s_iflnk = 40960

abbrev pub s_ififo : ℕ
s_ififo = 4096

abbrev pub fopen_direct_io : ℕ
fopen_direct_io = 1

-- The switch of Lookup.
unfoldable pub stable_mode : ℕ → ℕ
stable_mode mode =
    if has mode s_ifdir
    then s_ifdir
    else (if has mode s_iflnk then s_iflnk else (if has mode s_ififo then s_ififo else s_ifreg))

module _ {R : Rpc} where
  unfoldable pub answer : {A : Type 0} → A → Action R A
  answer a c = (done a, c)

  -- The early return on an errno.
  infixl 5 ◌>>=◌
  unfoldable pub ◌>>=◌ : {A B : Type 0} → Action R A → (A → Action R B) → Action R B
  ◌>>=◌ m f c =
      let (r, c') = m c in
      elim r [ done a ↦ f a c' | errno e ↦ (errno e, c') | panic ↦ (panic, c') ]

  infixl 5 ◌>>◌
  unfoldable pub ◌>>◌ : {A B : Type 0} → Action R A → Action R B → Action R B
  unfolding ◌>>=◌
  m >> k = m >>= λ _. k

-- What Create gives: the inode, the handle, the flags for the kernel, and the attributes in `out`.
pub record Created : Type 0 where
  pub child : Child
  pub fh : FileHandle
  pub fuse_flags : ℕ
  pub attr : StatAttr

module _ {R : Rpc} (os : Os) (node : Node) where
  unfoldable pub create : Text → ℕ → ℕ → Action R Created
  create name flags mode = do
    let full_path : Text = child_path node.full_path name
    (fh, attr) ← Calls.create os full_path flags mode
    answer (record {
      child = record { node = new_node full_path []; stable = record { mode = 0; ino = attr.ino } };
      fh = fh;
      fuse_flags = flags;
      attr = attr;
    })

  unfoldable pub flush : FileHandle → Action R (Unit {0})
  flush fh = Calls.close os fh

  unfoldable pub release : FileHandle → Action R (Unit {0})
  release fh = Calls.close os fh

  unfoldable pub fsync : FileHandle → ℕ → Action R (Unit {0})
  fsync fh flags = Calls.fsync os fh flags

  unfoldable pub getattr : Action R StatAttr
  getattr = Calls.stat os node.full_path

  -- The new link has the mode of the target's inode.
  unfoldable pub link : Child → Text → Action R (Child × StatAttr)
  link target name = do
    let new_full_path : Text = child_path node.full_path name
    Calls.link os target.node.full_path new_full_path
    attr ← Calls.stat os new_full_path
    answer (
      record {
        node = new_node new_full_path attr.link_target;
        stable = record { mode = target.stable.mode; ino = attr.ino };
      },
      attr,
    )

  unfoldable pub lookup : Text → Action R (Child × StatAttr)
  lookup name = do
    let full_path : Text = child_path node.full_path name
    attr ← Calls.stat os full_path
    answer (
      record {
        node = new_node full_path attr.link_target;
        stable = record { mode = stable_mode attr.mode; ino = attr.ino };
      },
      attr,
    )

  unfoldable pub lseek : FileHandle → ℕ → ℕ → Action R ℕ
  lseek fh off whence = do n ← Calls.seek os fh (to_i64 off) (pos whence); answer (to_u64 n)

  unfoldable pub mkdir : Text → ℕ → Action R (Child × StatAttr)
  mkdir name mode = do
    let full_path : Text = child_path node.full_path name
    attr ← Calls.mkdir os full_path mode
    answer (
      record { node = new_node full_path []; stable = record { mode = s_ifdir; ino = attr.ino } },
      attr,
    )

  -- The flags are passed as the mode too.
  unfoldable pub open_node : ℕ → Action R (FileHandle × ℕ)
  open_node flags = do
    (fh, mode) ← Calls.open_path os node.full_path flags flags
    answer (fh, fopen_direct_io)

  unfoldable pub readdir : Action R (List DirEntry)
  readdir = Calls.read_dir os node.full_path

  -- Read into a buffer of `len` bytes.
  unfoldable pub read : FileHandle → ℕ → ℤ → Action R (List ℕ)
  read fh len off = Calls.read os fh off (pos len)

  unfoldable pub readlink : Action R Text
  readlink = Calls.readlink os node.full_path

  -- `new_parent_path` is newParent.EmbeddedInode().Path(nil).
  unfoldable pub rename : Text → Text → Text → ℕ → Action R (Unit {0})
  rename name new_parent_path new_name flags =
      Calls.rename os (child_path node.full_path name) (child_path new_parent_path new_name) flags

  unfoldable pub rmdir : Text → Action R (Unit {0})
  rmdir name = Calls.rmdir os (child_path node.full_path name)

  unfoldable pub setattr : SetAttrIn → Action R StatAttr
  setattr in_attrs = Calls.set_attr os node.full_path in_attrs

  -- `out` is left as it was.
  unfoldable pub symlink : Text → Text → Action R Child
  symlink target name = do
    let new_full_path : Text = child_path node.full_path name
    Calls.symlink os target new_full_path
    answer (record {
      node = new_node new_full_path node.full_path;
      stable = record { mode = s_iflnk; ino = 0 };
    })

  unfoldable pub unlink : Text → Action R (Unit {0})
  unlink name = Calls.unlink os (child_path node.full_path name)

  unfoldable pub write : FileHandle → List ℕ → ℤ → Action R ℕ
  write fh bytes off = do n ← Calls.write os fh off bytes; answer (to_unsigned (2 ^ 32) n)
