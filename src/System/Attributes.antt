-- ===== src/System/Attributes.antt =====
-- Attributes from the client's side: stat, and the request that setAttr sends.
use dockerfuse.Base.{ℕ, ◌≡◌, refl, ◌∙◌, ◌<◌, ◌^◌, some, [], arith}
use dockerfuse.Base.Int.{ℤ, pos, to_u64}
use dockerfuse.Base.Text.{Text}
use dockerfuse.Os.{Os}
use dockerfuse.RpcCommon.Error.{return}
use dockerfuse.Satellite.FileSystem.{FileSystem, Stat, Try, done}
use dockerfuse.Satellite.Server.{Server, pure, attempt, attempt_or}
use dockerfuse.Satellite.Server.Laws.{>>=-return, attempt-done, target_of, attempt_or-target}
use dockerfuse.Satellite.Dispatch.{dispatch}
use dockerfuse.Satellite.Paths
use dockerfuse.Satellite.Paths.{stat_reply}
use dockerfuse.Client.Rpc.{Client, Outcome, remote}
use dockerfuse.Client.Calls
use dockerfuse.Client.Calls.{StatAttr, stat_attr, SetAttrIn, set_attr_request}
use dockerfuse.System.Link.{satellite_rpc, connected, call_then-return}

-- A time, a size or a number of blocks that is not negative, in 64 bits.
abbrev pub IsCount : ℤ → ℕ → Type 0
IsCount z n = (z ≡ pos n) × (n < 2 ^ 64)

-- The attributes `a` are those of the operating system's `sys`, number by number.
pub record SameAttributes (sys : Stat) (a : StatAttr) : Type 0 where
  pub mode : a.mode ≡ sys.mode
  pub nlink : a.nlink ≡ sys.nlink
  pub ino : a.ino ≡ sys.ino
  pub uid : a.uid ≡ sys.uid
  pub gid : a.gid ≡ sys.gid
  pub atime : pos a.atime ≡ sys.atime
  pub mtime : pos a.mtime ≡ sys.mtime
  pub ctime : pos a.ctime ≡ sys.ctime
  pub size : pos a.size ≡ sys.size
  pub blocks : pos a.blocks ≡ sys.blocks

-- The ranges in which no conversion loses anything.
pub record IsPlain (sys : Stat) : Type 0 where
  pub mode : sys.mode < 2 ^ 32
  pub nlink : sys.nlink < 2 ^ 32
  pub atime : (n : ℕ) × IsCount sys.atime n
  pub mtime : (n : ℕ) × IsCount sys.mtime n
  pub ctime : (n : ℕ) × IsCount sys.ctime n
  pub size : (n : ℕ) × IsCount sys.size n
  pub blocks : (n : ℕ) × IsCount sys.blocks n

count_kept : (z : ℤ) → (n : ℕ) × IsCount z n → pos (to_u64 z) ≡ z
count_kept z (n, (e, h)) = rw e (ground arith)

pub stat_attr-SameAttributes :
    (sys : Stat) (t : Text) → IsPlain sys → SameAttributes sys (stat_attr (stat_reply sys t))
unfolding stat_attr stat_reply
stat_attr-SameAttributes sys t plain = record {
  mode = omega (arith, plain.mode);
  nlink = omega (arith, plain.nlink);
  ino = refl;
  uid = refl;
  gid = refl;
  atime = count_kept sys.atime plain.atime;
  mtime = count_kept sys.mtime plain.mtime;
  ctime = count_kept sys.ctime plain.ctime;
  size = count_kept sys.size plain.size;
  blocks = count_kept sys.blocks plain.blocks;
}

module _ (F : FileSystem) (server_os client_os : Os) (c : Client (satellite_rpc F server_os))
    (s : Server F) where
  stat_dispatch :
      (p : Text) (sys : Stat) (r : Try Text) (w w2 : F.World)
      → F.lstat p s.world ≡ (done sys, w)
      → F.readlink p w ≡ (r, w2)
      → Paths.stat F server_os (record { full_path = p }) s
        ≡ (return (stat_reply sys (target_of r)), record s { world = w2 })
  unfolding Paths.stat pure
  stat_dispatch p sys r w w2 e l =
      >>=-return (attempt server_os (F.lstat p)) _ s (record s { world = w }) sys
        (attempt-done server_os (F.lstat p) s sys w e)
      ∙ >>=-return (attempt_or [] (F.readlink p)) _ (record s { world = w })
          (record s { world = w2 }) (target_of r)
          (attempt_or-target p (record s { world = w }) r w2 l)

  -- If Lstat succeeds and its numbers are in range, stat gives the attributes that it reports in
  -- the container, and the target that Readlink reports, or none where it fails.
  pub stat_across :
      (p : Text) (sys : Stat) (r : Try Text) (w w2 : F.World)
      → F.lstat p s.world ≡ (done sys, w)
      → F.readlink p w ≡ (r, w2)
      → IsPlain sys
      → (a : StatAttr) × (Calls.stat client_os p (connected F server_os c (some s))
          ≡ (Outcome.done a, connected F server_os c (some (record s { world = w2 }))))
        × SameAttributes sys a
        × (a.link_target ≡ target_of r)
  unfolding Calls.stat remote dispatch stat_attr stat_reply
  stat_across p sys r w w2 e l plain = (
    stat_attr (stat_reply sys (target_of r)),
    call_then-return F server_os _ _ _ c s _ _ (stat_dispatch p sys r w w2 e l),
    stat_attr-SameAttributes sys (target_of r) plain,
    refl,
  )
