-- ===== src/Satellite/Concurrent/Races/CloseClose.antt =====
-- Two Close requests for one descriptor that both find its file.
use dockerfuse.Base.{ℕ, ◌≡◌, refl, ap, subst, false, none, some, List, [], ◌∷◌, arith}
use dockerfuse.Base.Text.{Text}
use dockerfuse.Os.{Os}
use dockerfuse.RpcCommon.Error.{other_cause, path_error, errno_to_rpc_error_string}
use dockerfuse.Satellite.FileSystem.{FileSystem, done, raise}
use dockerfuse.Satellite.Table.{find, find-remove}
use dockerfuse.Satellite.Server.{Server, attempt, open_file_of}
use dockerfuse.Satellite.Server.Laws.{open_file_of-some, attempt-done, attempt-raise}
use dockerfuse.Satellite.Dispatch.{close}
use dockerfuse.Satellite.Concurrent.{Course, finish, access, atomic, deferred}
use dockerfuse.Satellite.Concurrent.Courses.{course, close_course, delete_entry}
use dockerfuse.Satellite.Concurrent.Threads.{
  Thread, thread, panicked, Interleaving, begin, arrive, step, here, later,
}
use dockerfuse.Satellite.Concurrent.Races.{success, panics, LeadsTo, first_access, first_closes}

module _ {F : FileSystem} (os : Os) (s : Server F) (k : ℕ) (f : F.File) where
  -- A Close of `k` that has looked its file up, and one that has yet to delete its entry.
  abbrev looked_up : Course F (Unit {0})
  looked_up = deferred (delete_entry k) (atomic (attempt os (F.close f)))

  looks_up :
      {ts : List (Thread F)}
      → find s.fds k ≡ some f
      → panicked ts ≡ false
      → Interleaving F os s ts s
      → Interleaving F os s (thread looked_up ∷ ts) s
  unfolding course close_course
  looks_up found alive i =
      first_access (open_file_of os k) _ (open_file_of-some os k s f found) alive
        (arrive i alive (close (record { fd = k })))

  -- The state after the close of one of them.
  abbrev pub after_close : Server F
  after_close = record s { world = (F.close f s.world).1 }

  abbrev pub closed : Course F (Unit {0})
  closed = access (delete_entry k) (λ _. finish success)

  second_closes :
      (F.close f s.world).0 ≡ done tt
      → Interleaving F os s (thread looked_up ∷ thread looked_up ∷ []) s
      → Interleaving F os s (thread looked_up ∷ thread closed ∷ []) after_close
  unfolding atomic deferred panicked
  second_closes done_once i =
      subst
        (λ o.
          Interleaving F os s
            (thread looked_up ∷ thread (access (delete_entry k) (λ _. finish o.0)) ∷ []) o.1)
        (attempt-done os (F.close f) s tt after_close.world
          (ap (λ o. (o, after_close.world)) done_once))
        (step i refl (later here))

  -- If a file is listed, its close succeeds, and a second close answers a path error that holds no
  -- number, then an interleaving of two Close requests for it, of which neither began after the
  -- other had ended, makes one of them panic, and the file is not listed any more.
  pub close_races_close :
      (x : Text)
      → find s.fds k ≡ some f
      → (F.close f s.world).0 ≡ done tt
      → (F.close f after_close.world).0 ≡ raise (path_error (other_cause x))
      → LeadsTo F os s (thread (finish panics) ∷ thread closed ∷ []) (λ t. find t.fds k ≡ none)
  unfolding panicked atomic deferred errno_to_rpc_error_string
  close_races_close x found once again = record {
    final = delete_entry k (record s { world = (F.close f after_close.world).1 });
    way =
        step
          (first_closes (attempt os (F.close f)) (delete_entry k)
            (attempt-raise os (F.close f) after_close (path_error (other_cause x)) _
              (ap (λ o. (o, (F.close f after_close.world).1)) again))
            refl (second_closes once (looks_up found refl (looks_up found refl begin))))
          refl here;
    holds = rw find-remove (ground arith);
  }
