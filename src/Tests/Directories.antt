-- ===== src/Tests/Directories.antt =====
-- Directories that are read through the client, at concrete inputs.
use dockerfuse.Base.{◌≡◌, refl, Option, none, some, List, arith, [], ◌∷◌, if◌then◌else◌}
use dockerfuse.Base.Text.{Text, str, text_eq}
use dockerfuse.Os.{linux, darwin}
use dockerfuse.RpcCommon.Error.{path_error, errno_cause}
use dockerfuse.RpcCommon.Types.{DirEntry}
use dockerfuse.Satellite.FileSystem.{FileSystem, done, raise}
use dockerfuse.Satellite.Server.{Server}
use dockerfuse.Client.Rpc.{Client}
use dockerfuse.Client.Calls
use dockerfuse.Client.Calls.{
  FileHandle, uintptr, StatAttr, SetAttrIn, set_attr_request, listed_entries,
}
use dockerfuse.System.Link.{satellite_rpc, connected}
use dockerfuse.System.Directories.{listing_seen, read_dir_across}
use dockerfuse.System.Directories.Entries.{Listing, shown, removed, end, path_number}
use dockerfuse.Tests.Memory.{among, plain_stat}
use dockerfuse.Tests.Handlers.{disk, F}

-- The directory of all paths.
abbrev entry : Text → DirEntry
entry n = record { mode = 33188; name = n; ino = 42 }

-- The same directory, from which a file is removed before its Info is called.
abbrev racing : FileSystem
racing = record F {
  entry_info = λ n d.
      (if text_eq n (str "/tmp") then raise (path_error (errno_cause 2)) else done plain_stat, d);
}

abbrev sr : Server racing
sr = record { fds = []; world = disk }

abbrev cr : Client (satellite_rpc racing linux)
cr = record { rpc_client = none; container_id = str "web"; satellite_full_remote_path = [] }

racing_read : racing.read_dir (str "/tmp") sr.world ≡ (done disk.paths, sr.world)
unfolding among
racing_read = refl

-- The file that is there is shown, and the one that is gone passed over.
one_removed : Listing racing linux disk.paths disk (some (entry (str "/etc/hosts") ∷ [])) disk
unfolding text_eq
one_removed =
    shown {w1 = disk} {sys = plain_stat} refl (omega arith)
      (removed {w1 = disk} {e = path_error (errno_cause 2)} refl path_number end)

read_dir_across_example :
    (listing : Option (List DirEntry)) × (w2 : racing.World) × Listing racing linux disk.paths disk
      listing w2
    × (Calls.read_dir darwin (str "/tmp") (connected racing linux cr (some sr)) ≡ (
      listing_seen racing linux darwin cr sr listing,
      connected racing linux cr (some (record sr { world = w2 })),
    ))
read_dir_across_example =
    read_dir_across racing linux darwin cr sr (str "/tmp") disk.paths disk racing_read
