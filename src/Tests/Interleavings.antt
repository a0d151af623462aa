-- ===== src/Tests/Interleavings.antt =====
-- Interleavings of concrete requests.
use dockerfuse.Base.{ℕ, ◌≡◌, refl, true, false, none, some, List, [], ◌∷◌, arith}
use dockerfuse.Base.Int.{pos}
use dockerfuse.Base.Text.{str}
use dockerfuse.Os.{linux}
use dockerfuse.RpcCommon.Error.{return, fail, errno_text, errno_to_rpc_error_string}
use dockerfuse.RpcCommon.Types.{OpenRequest, ReadRequest, ReadReply}
use dockerfuse.Satellite.Table.{find}
use dockerfuse.Satellite.Server.{
  Server, RangesOver, attempt, attempt_or, open_file_of, new_docker_fuse_fs_ops,
}
use dockerfuse.Satellite.Dispatch
use dockerfuse.Satellite.Dispatch.{dispatch}
use dockerfuse.Satellite.Descriptors.{register}
use dockerfuse.Satellite.Invariant.{Mirrors}
use dockerfuse.Satellite.Shutdown.{Run-Mirrors, start}
use dockerfuse.Satellite.Concurrent.Quiet.{opens_or_closes}
use dockerfuse.Satellite.Concurrent.{Course, finish, access, atomic, ◌>>=◌, ◌>>◌}
use dockerfuse.Satellite.Concurrent.Courses.{
  course, file_course, open_course, look_up, close_found, describe_course,
}
use dockerfuse.Satellite.Concurrent.Threads.{
  Thread, thread, panicked, Interleaving, begin, arrive, step, here,
}
use dockerfuse.Satellite.Concurrent.Numbers.{ListsByNumber, Interleaving-ListsByNumber}
use dockerfuse.Satellite.Concurrent.Orderly.{Orderly, Orderly-Mirrors}
use dockerfuse.Satellite.Concurrent.Races.{LeadsTo, success, panics}
use dockerfuse.Satellite.Concurrent.Races.CloseOpen.{opened_reply, close_races_open}
use dockerfuse.Satellite.Concurrent.Races.CloseClose.{closed, close_races_close}
use dockerfuse.Tests.Memory.{plain_stat}
use dockerfuse.Satellite.Main.{shutdown}
use dockerfuse.Satellite.Main.Laws.{exit_code, world_at_end, shutdown-closed}
use dockerfuse.Tests.OneFile.{
  Slot, open_slot, close_slot, holds, one_file, one_file_open_files, none_held, already_closed,
  the_number,
}

abbrev opening : OpenRequest
opening = record { full_path = str "/etc/hosts"; sa_flags = 0; mode = 0 }

abbrev reading : ReadRequest
reading = record { fd = the_number; offset = pos 0; num = pos 1 }

abbrev nothing_open : Slot
nothing_open = record { next_serial = 8; opened = none }

-- The file 7 is open and listed.
abbrev seven_open : Server one_file
seven_open = record {
  fds = (the_number, 7) ∷ [];
  world = record { next_serial = 8; opened = some 7 };
}

-- The first request makes its next access.
unfoldable threads_after : List (Thread one_file) × Server one_file → List (Thread one_file)
threads_after ([], s) = []
threads_after (thread (finish r) ∷ ts, s) = thread (finish r) ∷ ts
threads_after (thread (access change next) ∷ ts, s) = thread (next s) ∷ ts

unfoldable state_after : List (Thread one_file) × Server one_file → Server one_file
state_after ([], s) = s
state_after (thread (finish r) ∷ ts, s) = s
state_after (thread (access change next) ∷ ts, s) = change s

abbrev after_access :
    List (Thread one_file) × Server one_file → List (Thread one_file) × Server one_file
after_access x = (threads_after x, state_after x)

abbrev at_first : Server one_file
at_first = new_docker_fuse_fs_ops one_file nothing_open

-- A Read and an Open have come, and the Open has opened its file and registered it.
abbrev opened : List (Thread one_file) × Server one_file
opened = after_access (
    after_access (
      after_access (
        thread (course one_file linux (Dispatch.open_path opening))
            ∷ thread (course one_file linux (Dispatch.read reading))
            ∷ [],
        at_first,
      )))

two_requests : Interleaving one_file linux at_first opened.0 opened.1
unfolding threads_after state_after course panicked file_course ◌>>=◌ atomic open_course attempt
    open_slot look_up ◌>>◌ close_found find new_docker_fuse_fs_ops
two_requests =
    step
      (step
        (step (arrive (arrive begin refl (Dispatch.read reading)) refl (Dispatch.open_path opening))
          refl here)
        refl here)
      refl here

Interleaving-ListsByNumber_example : ListsByNumber opened.1
Interleaving-ListsByNumber_example =
    Interleaving-ListsByNumber one_file linux nothing_open two_requests

-- The Open goes on to its end, while the Read waits.
abbrev answered : List (Thread one_file) × Server one_file
answered = after_access (after_access opened)

abbrev refused : Course one_file ReadReply
refused = finish (fail (errno_text linux 22))

-- A Read comes before the Open, and is answered in the middle of it.
one_open : Orderly one_file linux at_first none (thread refused ∷ []) answered.1
unfolding threads_after state_after course panicked file_course ◌>>=◌ atomic open_course attempt
    open_slot look_up ◌>>◌ close_found find new_docker_fuse_fs_ops opens_or_closes open_file_of
    register describe_course attempt_or errno_to_rpc_error_string
one_open = Orderly.leave (
    Orderly.inside (
      Orderly.inside (
        Orderly.inside (
          Orderly.inside (
            Orderly.step
              (Orderly.inside (
                Orderly.enter (Orderly.arrive Orderly.begin (Dispatch.read reading) refl)
                  (Dispatch.open_path opening)))
              here)))))

none_at_first : Mirrors one_file_open_files at_first
unfolding holds
none_at_first =
    Run-Mirrors one_file_open_files linux nothing_open at_first (λ f. none_held nothing_open f refl)
      start

Orderly-Mirrors_example : Mirrors one_file_open_files answered.1
Orderly-Mirrors_example =
    Orderly-Mirrors one_file_open_files linux at_first answered.1 (thread refused ∷ [])
      none_at_first one_open

close_races_open_example :
    LeadsTo one_file linux seven_open
      (thread (
          finish
            (return (opened_reply one_file_open_files linux seven_open opening 7 8 plain_stat)))
        ∷ thread (finish success)
        ∷ [])
      (λ t. (one_file_open_files.is_open t.world 8 ≡ true) × (find t.fds the_number ≡ none))
unfolding find close_slot open_slot holds
close_races_open_example =
    close_races_open one_file_open_files linux seven_open opening 7 8 plain_stat refl refl refl
      (omega arith) refl

close_races_close_example :
    LeadsTo one_file linux seven_open
      (thread (finish panics) ∷ thread (closed linux seven_open the_number 7) ∷ [])
      (λ t. find t.fds the_number ≡ none)
unfolding find close_slot holds
close_races_close_example =
    close_races_close linux seven_open the_number 7 already_closed refl refl refl

in_table_order : RangesOver answered.1.fds answered.1.fds
unfolding RangesOver
in_table_order k = refl

shutdown-closed_example :
    (exit_code (shutdown answered.1.fds answered.1) ≡ some 0)
    × ((f : ℕ)
        → one_file_open_files.is_open (world_at_end (shutdown answered.1.fds answered.1)) f ≡ false)
shutdown-closed_example =
    shutdown-closed one_file_open_files linux nothing_open (thread refused ∷ []) answered.1
      answered.1.fds (λ f. none_held nothing_open f refl) one_open in_table_order
