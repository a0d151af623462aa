-- ===== src/Satellite/Concurrent/Numbers.antt =====
-- The table lists every file under its own number, also between the accesses of a handler.
use dockerfuse.Base.{
  ℕ, ◌≡◌, refl, Bool, true, false, Option, none, some, List, arith, All, if◌then◌else◌, ◌==◌,
}
use dockerfuse.Os.{Os}
use dockerfuse.RpcCommon.Flags.{sa_flags_to_system}
use dockerfuse.RpcCommon.Types.{OpenRequest, CloseRequest}
use dockerfuse.Satellite.FileSystem.{FileSystem, Try}
use dockerfuse.Satellite.Table.{find, find-store, find-remove}
use dockerfuse.Satellite.Server.{Server, attempt, new_docker_fuse_fs_ops}
use dockerfuse.Satellite.Descriptors.{register}
use dockerfuse.Satellite.Dispatch.{Method}
use dockerfuse.Satellite.Dispatch
use dockerfuse.Satellite.Concurrent.Courses.{
  course, open_course, close_course, look_up, close_found, close_quietly, delete_entry,
}
use dockerfuse.Satellite.Concurrent.Within.{
  Within, Steps, Along, Within-finish, Within-atomic, Within-then, Within-after, Within-deferred,
  Steps-attempt, Steps-open_file_of,
}
use dockerfuse.Satellite.Concurrent.Quiet.{
  QuietCalls, any_world, opens_or_closes, Within-quiet, Within-describe,
}
use dockerfuse.Satellite.Concurrent.Threads.{
  Thread, ThreadWithin, Move-Within, Interleaving, begin, arrive, step,
}

unfoldable pub ListsByNumber : {F : FileSystem} → Server F → Type 0
ListsByNumber {F} s = (k : ℕ) (f : F.File) → find s.fds k ≡ some f → F.fd f ≡ k

module _ (F : FileSystem) where
  KeepsNumbers : Server F → Server F → Type 0
  KeepsNumbers s t = ListsByNumber s → ListsByNumber t

  quiet_calls : QuietCalls F KeepsNumbers
  unfolding KeepsNumbers ListsByNumber
  quiet_calls = any_world KeepsNumbers (λ s w v. v)

  along : {A : Type 0} (call : F.World → A × F.World) → Along KeepsNumbers call
  unfolding KeepsNumbers ListsByNumber
  along call s v = v

  unmoved : (s : Server F) → KeepsNumbers s s
  unfolding KeepsNumbers
  unmoved s v = v

  Steps-look_up : (k : ℕ) → Steps KeepsNumbers (look_up k)
  unfolding look_up
  Steps-look_up k = unmoved

  Steps-register : (file : F.File) → Steps KeepsNumbers (register (F.fd file) file)
  unfolding KeepsNumbers ListsByNumber register
  Steps-register file s v k f h = registered (rw find-store at h)
    where
      registered : (if k == F.fd file then some file else find s.fds k) ≡ some f → F.fd f ≡ k
      registered e = ground (arith, v k f)

  delete_entry-KeepsNumbers : (n : ℕ) (s : Server F) → KeepsNumbers s (delete_entry n s)
  unfolding KeepsNumbers ListsByNumber
  delete_entry-KeepsNumbers n s v k f h = kept (rw find-remove at h)
    where
      kept : (if k == n then none else find s.fds k) ≡ some f → F.fd f ≡ k
      kept e = ground (arith, v k f)

  Within-close_found : (o : Option F.File) → Within KeepsNumbers (close_found o)
  unfolding close_found close_quietly KeepsNumbers ListsByNumber
  Within-close_found none = Within-finish KeepsNumbers _
  Within-close_found (some old) = Within-atomic KeepsNumbers (close_quietly old) (λ s v. v)

  module _ (os : Os) where
    Steps-call :
        {A : Type 0} (call : F.World → Try A × F.World) → Steps KeepsNumbers (attempt os call)
    Steps-call call = Steps-attempt KeepsNumbers os call (along call)

    Within-open : (r : OpenRequest) → Within KeepsNumbers (open_course F os r)
    unfolding open_course
    Within-open r =
        Within-then KeepsNumbers _ _
          (Steps-call (F.open_file r.full_path (sa_flags_to_system os r.sa_flags) r.mode))
          λ file. Within-then KeepsNumbers _ _ (Steps-look_up (F.fd file)) λ old.
            Within-after KeepsNumbers _ _ (Within-close_found old) (
              Within-after KeepsNumbers _ _ (Within-atomic KeepsNumbers _ (Steps-register file))
                (Within-describe KeepsNumbers quiet_calls os r file))

    Within-close : (r : CloseRequest) → Within KeepsNumbers (close_course F os r)
    unfolding close_course
    Within-close r =
        Within-then KeepsNumbers _ _ (Steps-open_file_of KeepsNumbers unmoved os r.fd) λ file.
          Within-deferred KeepsNumbers (delete_entry r.fd) _ (delete_entry-KeepsNumbers r.fd)
            (Within-atomic KeepsNumbers _ (Steps-call (F.close file)))

    course_outcome :
        {A : Type 0} (m : Method A) (b : Bool)
        → opens_or_closes m ≡ b
        → Within KeepsNumbers (course F os m)
    unfolding course opens_or_closes
    course_outcome m false e = Within-quiet KeepsNumbers quiet_calls os m e
    course_outcome (Dispatch.open_path r) true e = Within-open r
    course_outcome (Dispatch.close r) true e = Within-close r
    course_outcome _ true e = absurd (cc)

    Within-course : {A : Type 0} (m : Method A) → Within KeepsNumbers (course F os m)
    Within-course m = course_outcome m (opens_or_closes m) refl

    interleaved :
        {s t : Server F} {ts : List (Thread F)}
        → ListsByNumber s
        → Interleaving F os s ts t
        → ListsByNumber t × All (ThreadWithin KeepsNumbers) ts
    unfolding ThreadWithin KeepsNumbers
    interleaved v begin = (v, tt)
    interleaved v (arrive i alive m) = let (w, hs) = interleaved v i in (w, (Within-course m, hs))
    interleaved v (step i alive m) =
        let (w, hs) = interleaved v i in let (r, ks) = Move-Within KeepsNumbers m hs in (r w, ks)

    -- However requests of any kind are interleaved from the start of the satellite, each file that
    -- the table lists stands under its own number.
    pub Interleaving-ListsByNumber :
        (w : F.World) {t : Server F} {ts : List (Thread F)}
        → Interleaving F os (new_docker_fuse_fs_ops F w) ts t
        → ListsByNumber t
    unfolding ListsByNumber new_docker_fuse_fs_ops find
    Interleaving-ListsByNumber w i = (interleaved (λ k f h. absurd (cc)) i).0
