-- ===== src/Satellite/Concurrent/Races/CloseOpen.antt =====
-- A Close that has closed its file, an Open that gets the same number, and the deferred delete of the Close.
use dockerfuse.Base.{◌≡◌, ◌≢◌, refl, ◌∙◌, ap, true, false, none, some, List, [], ◌∷◌, arith}
use dockerfuse.Os.{Os}
use dockerfuse.RpcCommon.Error.{return}
use dockerfuse.RpcCommon.Flags.{sa_flags_to_system}
use dockerfuse.RpcCommon.Types.{OpenRequest, OpenReply}
use dockerfuse.Satellite.FileSystem.{FileSystem, Try, Stat, done}
use dockerfuse.Satellite.Table.{find, store, remove, find-remove}
use dockerfuse.Satellite.Server.{Server, attempt, attempt_or, open_file_of}
use dockerfuse.Satellite.Server.Laws.{open_file_of-some, attempt-done, attempt_or-target, target_of}
use dockerfuse.Satellite.Paths.{stat_reply}
use dockerfuse.Satellite.Descriptors.{register}
use dockerfuse.Satellite.OpenFiles.{OpenFiles}
use dockerfuse.Satellite.Dispatch.{open_path, close}
use dockerfuse.Satellite.Concurrent.{Course, finish, access, ◌>>=◌, ◌>>◌}
use dockerfuse.Satellite.Concurrent.Courses.{
  course, open_course, close_course, look_up, close_found, close_quietly, delete_entry,
  describe_course,
}
use dockerfuse.Satellite.Concurrent.Threads.{
  Thread, thread, panicked, Interleaving, begin, arrive, step, here, later,
}
use dockerfuse.Satellite.Concurrent.Races.{success, LeadsTo, first_access, first_closes}

module _ {F : FileSystem} (L : OpenFiles F) (os : Os) (s : Server F) (r : OpenRequest)
    (f g : F.File) (sys : Stat) where
  -- The worlds that the calls lead to: Close's close, Open's open, Open's close of what it finds, Stat.
  abbrev w1 : F.World
  w1 = (F.close f s.world).1

  abbrev pub opening : Try F.File × F.World
  opening = F.open_file r.full_path (sa_flags_to_system os r.sa_flags) r.mode w1

  abbrev w3 : F.World
  w3 = (F.close f opening.1).1

  abbrev w4 : F.World
  w4 = (F.stat g w3).1

  abbrev w5 : F.World
  w5 = (F.readlink r.full_path w4).1

  abbrev pub opened_reply : OpenReply
  opened_reply = record {
    fd = F.fd g;
    stat_reply = stat_reply sys (target_of (F.readlink r.full_path w4).0);
  }

  abbrev closed_reply : Server F → Course F (Unit {0})
  closed_reply _ = finish success

  closing :
      find s.fds (F.fd g) ≡ some f
      → (F.close f s.world).0 ≡ done tt
      → Interleaving F os s
          (thread (access (delete_entry (F.fd g)) closed_reply) ∷ [])
          (record s { world = w1 })
  unfolding panicked course close_course
  closing found closed =
      first_closes (attempt os (F.close f)) (delete_entry (F.fd g))
        (attempt-done os (F.close f) s tt w1 (ap (λ o. (o, w1)) closed)) refl
        (first_access (open_file_of os (F.fd g)) _ (open_file_of-some os (F.fd g) s f found) refl
          (arrive begin refl (close (record { fd = F.fd g }))))

  module _ {ts : List (Thread F)} (alive : panicked ts ≡ false)
      (found : find s.fds (F.fd g) ≡ some f) (opened : opening.0 ≡ done g)
      (described : (F.stat g w3).0 ≡ done sys) where
    registered :
        Interleaving F os s ts (record s { world = w1 })
        → Interleaving F os s
            (thread (describe_course F os r g) ∷ ts)
            (record { fds = store s.fds (F.fd g) g; world = w3 })
    unfolding course open_course ◌>>◌ close_found look_up close_quietly register
    registered i = first_access (register (F.fd g) g) _ refl alive (
        first_access (close_quietly f) _ refl alive (
          first_access (look_up (F.fd g)) _ found_again alive (
            first_access
              (attempt os (F.open_file r.full_path (sa_flags_to_system os r.sa_flags) r.mode)) _
              (attempt-done os _ (record s { world = w1 }) g opening.1
                (ap (λ o. (o, opening.1)) opened))
              alive (arrive i alive (open_path r)))))
      where
        found_again :
            look_up (F.fd g) (record s { world = opening.1 })
            ≡ (return (some f), record s { world = opening.1 })
        found_again = ap (λ o. (return o, record s { world = opening.1 })) found

    answered :
        Interleaving F os s ts (record s { world = w1 })
        → Interleaving F os s
            (thread (finish (return opened_reply)) ∷ ts)
            (record { fds = store s.fds (F.fd g) g; world = w5 })
    unfolding describe_course ◌>>=◌
    answered i =
        let u : Server F = record { fds = store s.fds (F.fd g) g; world = w3 } in
        first_access (attempt_or [] (F.readlink r.full_path)) _
          (attempt_or-target r.full_path (record u { world = w4 }) (F.readlink r.full_path w4).0 w5
            refl)
          alive
          (first_access (attempt os (F.stat g)) _
            (attempt-done os _ u sys w4 (ap (λ o. (o, w4)) described)) alive (registered i))

  still_open : opening.0 ≡ done g → g ≢ f → L.is_open w5 g ≡ true
  still_open opened differ =
      L.readlink_keeps r.full_path w4 g
      ∙ (L.stat_keeps g w3 g
          ∙ (L.close_other f opening.1 g differ ∙ L.open_file_self _ _ _ w1 opened))

  unlisted : find (remove (store s.fds (F.fd g) g) (F.fd g)) (F.fd g) ≡ none
  unlisted = rw find-remove (ground arith)

  -- In a system that keeps the promises of OpenFiles, if a file is listed, its close succeeds, an
  -- open(2) after that gives a new file with the same number, and Stat of that succeeds, then an
  -- interleaving of one Close and one Open lets both succeed, Open with that number, and leaves the
  -- new file open but not listed.
  pub close_races_open :
      find s.fds (F.fd g) ≡ some f
      → (F.close f s.world).0 ≡ done tt
      → opening.0 ≡ done g
      → g ≢ f
      → (F.stat g w3).0 ≡ done sys
      → LeadsTo F os s
          (thread (finish (return opened_reply)) ∷ thread (finish success) ∷ [])
          (λ t. (L.is_open t.world g ≡ true) × (find t.fds (F.fd g) ≡ none))
  unfolding panicked
  close_races_open found closed opened differ described = record {
    final = record { fds = remove (store s.fds (F.fd g) g) (F.fd g); world = w5 };
    way = step (answered refl found opened described (closing found closed)) refl (later here);
    holds = (still_open opened differ, unlisted);
  }
