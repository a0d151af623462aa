-- ===== src/Satellite/Concurrent/Orderly.antt =====
-- Interleavings in which no Open or Close begins before the last one has ended: the others come in
-- between as they like.
use dockerfuse.Base.{◌≡◌, false, Option, none, some, List, [], ◌∷◌, All}
use dockerfuse.Os.{Os}
use dockerfuse.RpcCommon.Error.{Result}
use dockerfuse.Satellite.FileSystem.{FileSystem}
use dockerfuse.Satellite.Server.{Server}
use dockerfuse.Satellite.OpenFiles.{OpenFiles}
use dockerfuse.Satellite.Dispatch.{Method}
use dockerfuse.Satellite.Concurrent.{Course, finish, access}
use dockerfuse.Satellite.Concurrent.Courses.{course}
use dockerfuse.Satellite.Concurrent.Quiet.{opens_or_closes, Within-quiet}
use dockerfuse.Satellite.Concurrent.Threads.{Thread, thread, ThreadWithin, Move, Move-Within}
use dockerfuse.Satellite.Invariant.{
  Mirrors, Unmoved, Unmoved-refl, quiet_calls, Mirrors-Unmoved, Safe, Safe-Unmoved, Safe-course,
}

-- The Open or Close in progress, if there is one, the other requests, and the state.
pub data Orderly (F : FileSystem) (os : Os) (s : Server F)
    : Option (Thread F) → List (Thread F) → Server F → Type 1 where
  begin : Orderly F os s none [] s
  arrive :
      {o : Option (Thread F)} {ts : List (Thread F)} {t : Server F} {A : Type 0}
      → Orderly F os s o ts t
      → (m : Method A) → opens_or_closes m ≡ false
      → Orderly F os s o (thread (course F os m) ∷ ts) t
  enter :
      {ts : List (Thread F)} {t : Server F} {A : Type 0}
      → Orderly F os s none ts t
      → (m : Method A) → Orderly F os s (some (thread (course F os m))) ts t
  step :
      {o : Option (Thread F)} {ts us : List (Thread F)} {t u : Server F}
      → Orderly F os s o ts t
      → Move t ts us u
      → Orderly F os s o us u
  inside :
      {ts : List (Thread F)} {t : Server F} {A : Type 0} {change : Server F → Server F}
      {next : Server F → Course F A}
      → Orderly F os s (some (thread (access change next))) ts t
      → Orderly F os s (some (thread (next t))) ts (change t)
  leave :
      {ts : List (Thread F)} {t : Server F} {A : Type 0} {r : Result A}
      → Orderly F os s (some (thread (finish r))) ts t
      → Orderly F os s none ts t

module _ {F : FileSystem} (L : OpenFiles F) where
  unfoldable SafeThread : Option (Thread F) → Server F → Type 0
  SafeThread none s = Mirrors L s
  SafeThread (some (thread c)) s = Safe L c s

  SafeThread-Unmoved :
      (o : Option (Thread F)) {s t : Server F} → Unmoved L s t → SafeThread o s → SafeThread o t
  unfolding SafeThread
  SafeThread-Unmoved none p v = Mirrors-Unmoved L p v
  SafeThread-Unmoved (some (thread c)) p v = Safe-Unmoved L c p v

  orderly :
      (os : Os) {s t : Server F} {o : Option (Thread F)} {ts : List (Thread F)}
      → Mirrors L s
      → Orderly F os s o ts t
      → SafeThread o t × All (ThreadWithin (Unmoved L)) ts
  unfolding SafeThread ThreadWithin Safe
  orderly os v begin = (v, tt)
  orderly os v (arrive i m quiet) =
      let (w, hs) = orderly os v i in (w, (Within-quiet (Unmoved L) (quiet_calls L) os m quiet, hs))
  orderly os v (enter {t} i m) = let (w, hs) = orderly os v i in (Safe-course L os m t w, hs)
  orderly os v (step {o} i m) =
      let (w, hs) = orderly os v i in
      let (p, ks) = Move-Within (Unmoved L) m hs in (SafeThread-Unmoved o p w, ks)
  orderly os v (inside {t} i) = let (w, hs) = orderly os v i in (w t (Unmoved-refl L t), hs)
  orderly os v (leave i) = orderly os v i

  -- In a system that keeps the promises of OpenFiles, if the table lists exactly the open files at
  -- the start, and requests are interleaved between any two of their accesses, but no Open or Close
  -- begins before the last Open or Close has ended, then whenever none of those two is in progress
  -- the table lists exactly the open files.
  pub Orderly-Mirrors :
      (os : Os) (s t : Server F) (ts : List (Thread F))
      → Mirrors L s
      → Orderly F os s none ts t
      → Mirrors L t
  unfolding SafeThread
  Orderly-Mirrors os s t ts v i = (orderly os v i).0
