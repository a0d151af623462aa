-- ===== src/Tests/Handlers.antt =====
-- The satellite at concrete inputs, on the file system in memory.
use dockerfuse.Base.{true, ◌≡◌, refl, false, [], ◌∷◌, arith}
use dockerfuse.Base.Int.{pos, negsuc}
use dockerfuse.Base.Text.{str}
use dockerfuse.Os.{linux}
use dockerfuse.RpcCommon.Types.{OpenRequest, Time}
use dockerfuse.Satellite.FileSystem.{FileSystem}
use dockerfuse.Satellite.Server.{Server, new_docker_fuse_fs_ops}
use dockerfuse.Satellite.Table.{find}
use dockerfuse.Satellite.Spec.{After}
use dockerfuse.Satellite.Spec.Refinement.{dispatch-After}
use dockerfuse.Satellite.Dispatch
use dockerfuse.Satellite.Dispatch.{Method, dispatch}
use dockerfuse.Satellite.Invariant.{Mirrors, dispatch-Mirrors}
use dockerfuse.Satellite.Shutdown.{start, Run-Mirrors}
use dockerfuse.Satellite.Attributes.{timespec_of}
use dockerfuse.RpcCommon.SetAttr.{utime_omit}
use dockerfuse.Satellite.Times.{timespec_of_lem}
use dockerfuse.Tests.Memory.{Disk, memory}
use dockerfuse.Tests.MemoryLaws.{memory_open_files, nothing_open}

abbrev pub disk : Disk
disk = record {
  paths = str "/etc/hosts" ∷ str "/tmp" ∷ [];
  content = 1 ∷ 2 ∷ 3 ∷ [];
  open_numbers = [];
}

abbrev pub F : FileSystem
F = memory linux

abbrev pub first_server : Server F
first_server = record { fds = []; world = disk }

-- O_WRONLY | O_APPEND, in the agnostic numbering.
abbrev opening_hosts : OpenRequest
opening_hosts = record { full_path = str "/etc/hosts"; sa_flags = 5; mode = 420 }

Mirrors-at_first : Mirrors (memory_open_files linux) (new_docker_fuse_fs_ops F disk)
Mirrors-at_first =
    Run-Mirrors (memory_open_files linux) linux disk _ (λ f. nothing_open linux disk f refl) start

dispatch-Mirrors_example :
    Mirrors
      (memory_open_files linux)
      (dispatch F linux (Dispatch.open_path opening_hosts) (new_docker_fuse_fs_ops F disk)).1
dispatch-Mirrors_example =
    dispatch-Mirrors (memory_open_files linux) linux (Dispatch.open_path opening_hosts)
      (new_docker_fuse_fs_ops F disk) Mirrors-at_first

-- A quarter of a second before 1970.
abbrev before_epoch : Time
before_epoch = record { sec = negsuc 0; nsec = 750000000 }

timespec_of_lem_example :
    (timespec_of (before_epoch, true) ≡ record { sec = negsuc 0; nsec = pos 750000000 })
    × ((u : Time) → timespec_of (u, false) ≡ record { sec = pos 0; nsec = pos utime_omit })
timespec_of_lem_example = timespec_of_lem before_epoch (omega arith) (omega arith)

dispatch-After_example :
    After F
      (Dispatch.open_path opening_hosts)
      (dispatch F linux (Dispatch.open_path opening_hosts) first_server).0
      (find first_server.fds)
      (find (dispatch F linux (Dispatch.open_path opening_hosts) first_server).1.fds)
dispatch-After_example = dispatch-After F linux (Dispatch.open_path opening_hosts) first_server
