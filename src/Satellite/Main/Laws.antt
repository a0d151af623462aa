-- ===== src/Satellite/Main/Laws.antt =====
-- How the satellite's process ends.
use dockerfuse.Base.{ℕ, ◌≡◌, refl, ◌↔◌, false, Option, none, some, List, arith}
use dockerfuse.Os.{Os}
use dockerfuse.Satellite.FileSystem.{FileSystem, Try, done, raise}
use dockerfuse.Satellite.Server.{Server, new_docker_fuse_fs_ops, RangesOver}
use dockerfuse.Satellite.Table.{Table}
use dockerfuse.Satellite.OpenFiles.{OpenFiles}
use dockerfuse.Satellite.Shutdown.{new_docker_fuse_fs_ops-Mirrors, close_all_fds-closed}
use dockerfuse.Satellite.Concurrent.Threads.{Thread}
use dockerfuse.Satellite.Concurrent.Orderly.{Orderly, Orderly-Mirrors}
use dockerfuse.Satellite.Main.{Ending, exits, returns, either_error, close_both, shutdown}

unfoldable pub exit_code : {F : FileSystem} → Ending F → Option ℕ
exit_code (exits n w) = some n
exit_code (returns s) = none

unfoldable pub world_at_end : {F : FileSystem} → Ending F → F.World
world_at_end (exits n w) = w
world_at_end (returns s) = s.world

either_error_outcome :
    (x y : Try (Unit {0})) → (either_error x y ≡ done tt) ↔ ((x ≡ done tt) × (y ≡ done tt))
either_error_outcome (done _) (done _) = ground arith
either_error_outcome (done _) (raise e) = ground arith
either_error_outcome (raise e) (done _) = ground arith
either_error_outcome (raise e) (raise g) = ground arith

-- RWCloser.Close closes the reader and after it the writer, whatever the first close answers, and
-- reports no error exactly if both closes report none.
close_both_lem :
    {W : Type 0} (close_reader close_writer : W → Try (Unit {0}) × W) (w : W)
    → ((close_both close_reader close_writer w).1 ≡ (close_writer (close_reader w).1).1)
      × (((close_both close_reader close_writer w).0 ≡ done tt)
          ↔ (((close_reader w).0 ≡ done tt) × ((close_writer (close_reader w).1).0 ≡ done tt)))
unfolding close_both
close_both_lem close_reader close_writer w = (refl, either_error_outcome _ _)

-- In a system that keeps the promises of OpenFiles, if no file is open when the satellite starts,
-- and a signal comes after requests that are interleaved with no Open or Close begun before the
-- last one has ended, and while none of those two is in progress, then the process closes every
-- file that is open, in whatever order CloseAllFDs goes over the table, and exits with code 0.
pub shutdown-closed :
    {F : FileSystem} (L : OpenFiles F) (os : Os) (w : F.World) (ts : List (Thread F)) (t : Server F)
    (order : Table F.File)
    → ((f : F.File) → L.is_open w f ≡ false)
    → Orderly F os (new_docker_fuse_fs_ops F w) none ts t
    → RangesOver order t.fds
    → (exit_code (shutdown order t) ≡ some 0)
      × ((f : F.File) → L.is_open (world_at_end (shutdown order t)) f ≡ false)
unfolding shutdown exit_code world_at_end
shutdown-closed L os w ts t order nothing run ranges = (
  refl,
  (close_all_fds-closed L os order t ranges
      (Orderly-Mirrors L os _ t ts (new_docker_fuse_fs_ops-Mirrors L os w nothing) run)).1,
)
