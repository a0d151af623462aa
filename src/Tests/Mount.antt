-- ===== src/Tests/Mount.antt =====
-- The client with its satellite at concrete inputs, from a Darwin host to a Linux container.
use dockerfuse.Base.{◌≡◌, refl, none, some, [], ◌∷◌, arith}
use dockerfuse.Base.Int.{pos, negsuc}
use dockerfuse.Base.Text.{Text, str}
use dockerfuse.Os.{linux, darwin}
use dockerfuse.Os.Errno.{ErrorName, errno}
use dockerfuse.RpcCommon.Error.{path_error, errno_cause, other_cause, other, eof}
use dockerfuse.Satellite.FileSystem.{Try, done, raise}
use dockerfuse.Satellite.Table.{find, remove}
use dockerfuse.Satellite.Server.{Server}
use dockerfuse.Client.Rpc.{Client, Outcome}
use dockerfuse.Client.Calls
use dockerfuse.Client.Calls.{
  FileHandle, uintptr, StatAttr, SetAttrIn, set_attr_request, listed_entries,
}
use dockerfuse.System.Link.{satellite_rpc, connected}
use dockerfuse.System.Files.{read_across, read_negative_offset}
use dockerfuse.System.Paths.{path_calls_across, seen}
use dockerfuse.System.Attributes.{IsPlain, SameAttributes, stat_across}
use dockerfuse.Tests.Memory.{among, without, read_on, first, later, plain_stat}
use dockerfuse.Tests.Handlers.{disk, F}

abbrev pub c : Client (satellite_rpc F linux)
c = record {
  rpc_client = none;
  container_id = str "web";
  satellite_full_remote_path = str "/tmp/dockerfuse_satellite_amd64";
}

-- Descriptor 4 is open.
abbrev pub s : Server F
s = record { fds = (4, 4) ∷ []; world = record disk { open_numbers = 4 ∷ [] } }

abbrev pub conn : Server F → Client (satellite_rpc F linux)
conn t = connected F linux c (some t)

path_calls_across_example :
    let p : Text = str "/etc/hosts" in
    let q : Text = str "/etc/hosts.old" in
    (Calls.unlink darwin p (conn s) ≡ seen F linux darwin c s (F.remove p s.world))
    × (Calls.rmdir darwin p (conn s) ≡ seen F linux darwin c s (F.remove p s.world))
    × (Calls.rename darwin p q 0 (conn s) ≡ seen F linux darwin c s (F.rename p q s.world))
    × (Calls.link darwin p q (conn s) ≡ seen F linux darwin c s (F.link p q s.world))
    × (Calls.symlink darwin p q (conn s) ≡ seen F linux darwin c s (F.symlink p q s.world))
    × (Calls.readlink darwin p (conn s) ≡ seen F linux darwin c s (F.readlink p s.world))
path_calls_across_example =
    path_calls_across F linux darwin c s (str "/etc/hosts") (str "/etc/hosts.old") 0

pub listed_4 : find s.fds 4 ≡ some 4
unfolding find
listed_4 = refl

pub plain : IsPlain plain_stat
plain = record {
  mode = omega arith;
  nlink = omega arith;
  atime = (1700000000, (refl, omega arith));
  mtime = (1700000001, (refl, omega arith));
  ctime = (1700000002, (refl, omega arith));
  size = (3, (refl, omega arith));
  blocks = (8, (refl, omega arith));
}

abbrev pub no_link : Try Text
no_link = raise (path_error (errno_cause (errno linux ErrorName.enoent)))

hosts_exists : F.lstat (str "/etc/hosts") s.world ≡ (done plain_stat, s.world)
unfolding among
hosts_exists = refl

stat_across_example :
    (a : StatAttr) × (Calls.stat darwin (str "/etc/hosts") (conn s) ≡ (Outcome.done a, conn s))
    × SameAttributes plain_stat a
    × (a.link_target ≡ [])
stat_across_example =
    stat_across F linux darwin c s (str "/etc/hosts") plain_stat no_link s.world s.world
      hosts_exists refl plain

end_of_content : F.read_at 4 10 (pos 1) s.world ≡ ((2 ∷ 3 ∷ [], some (other eof)), s.world)
unfolding read_on first later
end_of_content = refl

-- Two bytes are left of the ten that are asked for.
read_across_example :
    Calls.read darwin (uintptr 4) (pos 1) (pos 10) (conn s) ≡ (Outcome.done (2 ∷ 3 ∷ []), conn s)
read_across_example =
    read_across F linux darwin c s 4 10 (pos 1) 4 (2 ∷ 3 ∷ []) (some (other eof)) s.world listed_4
      end_of_content refl

negative_refused :
    F.read_at 4 10 (negsuc 2) s.world
    ≡ (([], some (path_error (other_cause (str "negative offset")))), s.world)
unfolding read_on
negative_refused = refl

read_negative_offset_example :
    Calls.read darwin (uintptr 4) (negsuc 2) (pos 10) (conn s)
    ≡ (Outcome.errno 5, connected F linux c none)
read_negative_offset_example =
    read_negative_offset F linux darwin c s 4 10 2 4 [] (str "negative offset") s.world listed_4
      negative_refused

abbrev pub einval : {A : Type 0} → Outcome A
einval = Outcome.errno 22

abbrev pub flushed : Server F
flushed = record { fds = remove s.fds 4; world = record disk { open_numbers = [] } }

pub flush_4 : F.close 4 s.world ≡ (Try.done tt, flushed.world)
unfolding without
flush_4 = refl
