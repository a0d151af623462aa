-- ===== src/Tests/Openings.antt =====
-- Files that are opened through the client, at concrete inputs.
use dockerfuse.Base.{◌≡◌, refl, true, none, some, [], ◌∷◌}
use dockerfuse.Base.Bits.{has}
use dockerfuse.Base.Int.{pos}
use dockerfuse.Base.Text.{str}
use dockerfuse.Os.{linux, darwin}
use dockerfuse.RpcCommon.Error.{path_error, errno_cause}
use dockerfuse.Os.Flags.{open_flag, append}
use dockerfuse.RpcCommon.Flags.{add_flag, system_to_sa_flags, sa_flags_to_system}
use dockerfuse.Satellite.FileSystem.{FileSystem, Try, done, raise}
use dockerfuse.Satellite.Table.{find, store}
use dockerfuse.Satellite.Server.{Server}
use dockerfuse.Client.Rpc.{Client, Outcome}
use dockerfuse.Client.Calls
use dockerfuse.Client.Calls.{
  FileHandle, uintptr, StatAttr, SetAttrIn, set_attr_request, listed_entries,
}
use dockerfuse.System.Link.{satellite_rpc, connected}
use dockerfuse.System.Append.{append_write-eio}
use dockerfuse.System.Attributes.{SameAttributes}
use dockerfuse.System.Opening.{open_across, open_stat_failure_keeps_file}
use dockerfuse.System.Refusals.{number_seen}
use dockerfuse.Tests.Memory.{among, fresh, total, open_on, plain_stat}
use dockerfuse.Tests.MemoryLaws.{memory-RefusesAppend}
use dockerfuse.Tests.Handlers.{disk, F}
use dockerfuse.Tests.Mount.{c, s, conn, plain, no_link}

-- O_WRONLY | O_APPEND on Darwin. The file gets the number 3.
abbrev appending : Server F
appending = record { fds = (3, 3) ∷ []; world = record disk { open_numbers = 3 ∷ [] } }

listed_3 : find appending.fds 3 ≡ some 3
unfolding find
listed_3 = refl

appending_opens :
    (F.open_file
      (str "/etc/hosts")
      (sa_flags_to_system linux (system_to_sa_flags darwin 9))
      0
      disk).0
    ≡ Try.done 3
unfolding open_on among fresh total sa_flags_to_system system_to_sa_flags has add_flag
appending_opens = refl

append_asked : has 9 (open_flag darwin append) ≡ true
unfolding has
append_asked = refl

append_write-eio_example :
    (Calls.write darwin (uintptr 3) (pos 0) (7 ∷ []) (conn appending)).0 ≡ Outcome.errno 5
append_write-eio_example =
    append_write-eio F linux darwin c (memory-RefusesAppend linux) (str "/etc/hosts") 9 0 3 disk
      appending 3 (pos 0) (7 ∷ []) append_asked appending_opens listed_3

-- O_RDWR. The number of the next file is 10.
hosts_opens :
    F.open_file
      (str "/etc/hosts")
      (sa_flags_to_system linux (system_to_sa_flags darwin 2))
      0
      s.world
    ≡ (done 10, record disk { open_numbers = 10 ∷ 4 ∷ [] })
unfolding open_on among fresh total sa_flags_to_system system_to_sa_flags has add_flag
hosts_opens = refl

unlisted_10 : find s.fds 10 ≡ none
unfolding find
unlisted_10 = refl

abbrev two_open : Server F
two_open = record { fds = store s.fds 10 10; world = record disk { open_numbers = 10 ∷ 4 ∷ [] } }

open_across_example :
    (a : StatAttr) × (Calls.create darwin (str "/etc/hosts") 2 0 (conn s)
      ≡ (Outcome.done (uintptr 10, a), conn two_open))
    × (Calls.open_path darwin (str "/etc/hosts") 2 0 (conn s)
        ≡ (Outcome.done (uintptr 10, a.mode), conn two_open))
    × SameAttributes plain_stat a
    × (find two_open.fds 10 ≡ some 10)
open_across_example =
    open_across F linux darwin c s (str "/etc/hosts") 2 0 10 two_open.world two_open.world
      plain_stat no_link two_open.world hosts_opens unlisted_10 refl refl plain

-- A system whose fstat fails with EIO.
abbrev faulty : FileSystem
faulty = record F { stat = λ f d. (raise (path_error (errno_cause 5)), d) }

abbrev sf : Server faulty
sf = record { fds = []; world = record disk { open_numbers = 4 ∷ [] } }

abbrev cf : Client (satellite_rpc faulty linux)
cf = record { rpc_client = none; container_id = str "web"; satellite_full_remote_path = [] }

abbrev left_open : Server faulty
left_open = record { fds = store sf.fds 10 10; world = two_open.world }

open_stat_failure_keeps_file_example :
    (Calls.open_path darwin (str "/etc/hosts") 2 0 (connected faulty linux cf (some sf)) ≡ (
      Outcome.errno (number_seen darwin linux (path_error (errno_cause 5))),
      connected faulty linux cf (some left_open),
    ))
    × (find left_open.fds 10 ≡ some 10)
unfolding find
open_stat_failure_keeps_file_example =
    open_stat_failure_keeps_file faulty linux darwin cf sf (str "/etc/hosts") 2 0 10 two_open.world
      two_open.world (path_error (errno_cause 5)) hosts_opens refl refl
