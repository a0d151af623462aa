-- ===== src/Client/Calls.antt =====
-- cmd/dockerfuse/client/client.go: the operations of DockerFuseClient, one call of the satellite each.
use dockerfuse.Base.{ℕ, Option, none, some, List, [], ◌∷◌, ltb, if◌then◌else◌}
use dockerfuse.Base.Int.{ℤ, to_u64}
use dockerfuse.Base.Text.{Text, text_eq}
use dockerfuse.Os.{Os}
use dockerfuse.RpcCommon.Error.{eof}
use dockerfuse.RpcCommon.Flags.{system_to_sa_flags}
use dockerfuse.RpcCommon.SetAttr.{
  SetAttrRequest, zero_time, set_mode, set_uid, set_gid, set_a_time, set_m_time, set_size,
}
use dockerfuse.RpcCommon.Types.{StatReply, DirEntry, Time}
use dockerfuse.Satellite.Dispatch
use dockerfuse.Client.Rpc.{Rpc, done, panic, Action, remote_error, call_then, remote}

-- fuse.Attr, as far as the client fills it, and the link target beside it.
pub record StatAttr : Type 0 where
  pub ino : ℕ
  pub size : ℕ
  pub blocks : ℕ
  pub atime : ℕ
  pub mtime : ℕ
  pub ctime : ℕ
  pub mode : ℕ
  pub nlink : ℕ
  pub uid : ℕ
  pub gid : ℕ
  pub link_target : Text

-- The assignments from a reply, which stat, create and setAttr share.
unfoldable pub stat_attr : StatReply → StatAttr
stat_attr r = record {
  ino = r.ino;
  size = to_u64 r.size;
  blocks = to_u64 r.blocks;
  atime = to_u64 r.atime;
  mtime = to_u64 r.mtime;
  ctime = to_u64 r.ctime;
  mode = r.mode;
  nlink = r.nlink;
  uid = r.uid;
  gid = r.gid;
  link_target = r.link_target;
}

-- A fusefs.FileHandle: a uintptr, or any other value, for which `fh.(uintptr)` panics.
pub data FileHandle : Type 0 where
  uintptr : ℕ → FileHandle
  other_handle : FileHandle

-- What the getters of fuse.SetAttrIn answer.
pub record SetAttrIn : Type 0 where
  pub a_time : Option Time
  pub m_time : Option Time
  pub uid : Option ℕ
  pub gid : Option ℕ
  pub mode : Option ℕ
  pub size : Option ℕ

-- if v, ok := in.Get…(); ok { request.Set…(v) }
abbrev pub set_if {ℓ} :
    {V : Type ℓ}
    → (SetAttrRequest → V → SetAttrRequest)
    → Option V
    → SetAttrRequest
    → SetAttrRequest
set_if set none r = r
set_if set (some v) r = set r v

abbrev pub empty_set_attr_request : Text → SetAttrRequest
empty_set_attr_request full_path = record {
  full_path = full_path;
  valid_attrs = 0;
  a_time = zero_time;
  m_time = zero_time;
  uid = 0;
  gid = 0;
  mode = 0;
  size = 0;
}

unfoldable pub set_attr_request : Text → SetAttrIn → SetAttrRequest
set_attr_request full_path in_attrs =
    let r1 : SetAttrRequest =
      set_if set_a_time in_attrs.a_time (empty_set_attr_request full_path) in
    let r2 : SetAttrRequest = set_if set_m_time in_attrs.m_time r1 in
    let r3 : SetAttrRequest = set_if set_uid in_attrs.uid r2 in
    let r4 : SetAttrRequest = set_if set_gid in_attrs.gid r3 in
    let r5 : SetAttrRequest = set_if set_mode in_attrs.mode r4 in set_if set_size in_attrs.size r5

-- The loop of readDir, which drops the entries with an inode of 2 or less.
unfoldable pub listed_entries : List DirEntry → List DirEntry
listed_entries [] = []
listed_entries (entry ∷ entries) =
    let rest = listed_entries entries in if ltb 2 entry.ino then entry ∷ rest else rest

module _ {R : Rpc} (os : Os) where
  unfoldable pub stat : Text → Action R StatAttr
  stat full_path = remote os (Dispatch.stat (record { full_path = full_path })) stat_attr

  unfoldable pub create : Text → ℕ → ℕ → Action R (FileHandle × StatAttr)
  create full_path flags mode =
      remote os
        (Dispatch.open_path
          (record { full_path = full_path; sa_flags = system_to_sa_flags os flags; mode = mode }))
        (λ r. (uintptr r.fd, stat_attr r.stat_reply))

  unfoldable pub read_dir : Text → Action R (List DirEntry)
  read_dir full_path =
      remote os (Dispatch.read_dir (record { full_path = full_path }))
        (λ r. listed_entries r.dir_entries)

  -- The handle and the mode.
  unfoldable pub open_path : Text → ℕ → ℕ → Action R (FileHandle × ℕ)
  open_path full_path flags mode_in =
      remote os
        (Dispatch.open_path (record {
          full_path = full_path;
          sa_flags = system_to_sa_flags os flags;
          mode = mode_in;
        }))
        (λ r. (uintptr r.fd, r.mode))

  unfoldable pub close : FileHandle → Action R (Unit {0})
  close other_handle c = (panic, c)
  close (uintptr fd) c = remote os (Dispatch.close (record { fd = fd })) (λ r. r) c

  -- The error "EOF" is an empty result.
  unfoldable pub read : FileHandle → ℤ → ℤ → Action R (List ℕ)
  read other_handle offset n c = (panic, c)
  read (uintptr fd) offset n c =
      call_then (Dispatch.read (record { fd = fd; offset = offset; num = n })) (λ r. done r.bytes)
        (λ t. if text_eq t eof then done [] else remote_error os t) c

  unfoldable pub seek : FileHandle → ℤ → ℤ → Action R ℤ
  seek other_handle offset whence c = (panic, c)
  seek (uintptr fd) offset whence c =
      remote os (Dispatch.seek (record { fd = fd; offset = offset; whence = whence })) (λ r. r.num)
        c

  unfoldable pub write : FileHandle → ℤ → List ℕ → Action R ℤ
  write other_handle offset bytes c = (panic, c)
  write (uintptr fd) offset bytes c =
      remote os (Dispatch.write (record { fd = fd; offset = offset; bytes = bytes })) (λ r. r.num) c

  unfoldable pub unlink : Text → Action R (Unit {0})
  unlink full_path = remote os (Dispatch.unlink (record { full_path = full_path })) (λ r. r)

  unfoldable pub fsync : FileHandle → ℕ → Action R (Unit {0})
  fsync other_handle flags c = (panic, c)
  fsync (uintptr fd) flags c =
      remote os (Dispatch.fsync (record { fd = fd; flags = flags })) (λ r. r) c

  -- The link target of a new directory is empty, whatever the reply says.
  unfoldable pub mkdir : Text → ℕ → Action R StatAttr
  mkdir full_path mode =
      remote os (Dispatch.mkdir (record { full_path = full_path; mode = mode }))
        (λ r. record (stat_attr r) { link_target = [] })

  unfoldable pub rmdir : Text → Action R (Unit {0})
  rmdir full_path = remote os (Dispatch.rmdir (record { full_path = full_path })) (λ r. r)

  unfoldable pub rename : Text → Text → ℕ → Action R (Unit {0})
  rename full_path full_new_path flags =
      remote os
        (Dispatch.rename
          (record { full_path = full_path; full_new_path = full_new_path; flags = flags }))
        (λ r. r)

  unfoldable pub readlink : Text → Action R Text
  readlink full_path =
      remote os (Dispatch.readlink (record { full_path = full_path })) (λ r. r.link_target)

  unfoldable pub link : Text → Text → Action R (Unit {0})
  link old_full_path new_full_path =
      remote os
        (Dispatch.link (record { old_full_path = old_full_path; new_full_path = new_full_path }))
        (λ r. r)

  unfoldable pub symlink : Text → Text → Action R (Unit {0})
  symlink old_full_path new_full_path =
      remote os
        (Dispatch.symlink (record { old_full_path = old_full_path; new_full_path = new_full_path }))
        (λ r. r)

  unfoldable pub set_attr : Text → SetAttrIn → Action R StatAttr
  set_attr full_path in_attrs =
      remote os (Dispatch.set_attr (set_attr_request full_path in_attrs)) stat_attr
