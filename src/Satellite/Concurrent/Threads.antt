-- ===== src/Satellite/Concurrent/Threads.antt =====
-- The goroutines of net/rpc, one for each request in progress, and their interleavings.
use dockerfuse.Base.{◌≡◌, Bool, true, false, List, [], ◌∷◌, All}
use dockerfuse.Os.{Os}
use dockerfuse.RpcCommon.Error.{panic}
use dockerfuse.Satellite.FileSystem.{FileSystem}
use dockerfuse.Satellite.Server.{Server}
use dockerfuse.Satellite.Dispatch.{Method}
use dockerfuse.Satellite.Concurrent.{Course, finish, access}
use dockerfuse.Satellite.Concurrent.Courses.{course}
use dockerfuse.Satellite.Concurrent.Within.{Within}

-- A request in progress, or its answer.
pub data Thread (F : FileSystem) : Type 1 where
  thread : {A : Type 0} → Course F A → Thread F

-- A panic of one goroutine ends the process.
unfoldable pub panicked : {F : FileSystem} → List (Thread F) → Bool
panicked [] = false
panicked (thread (finish panic) ∷ ts) = true
panicked (thread (finish _) ∷ ts) = panicked ts
panicked (thread (access _ _) ∷ ts) = panicked ts

-- One of the threads makes its next access.
pub data Move {F : FileSystem} (s : Server F)
    : List (Thread F) → List (Thread F) → Server F → Type 1 where
  here :
      {A : Type 0} {change : Server F → Server F} {next : Server F → Course F A}
      {ts : List (Thread F)}
      → Move s (thread (access change next) ∷ ts) (thread (next s) ∷ ts) (change s)
  later :
      {t : Thread F} {ts us : List (Thread F)} {s' : Server F}
      → Move s ts us s'
      → Move s (t ∷ ts) (t ∷ us) s'

-- The requests that have come since the start, as far as they have got, and the state they have led to.
pub data Interleaving (F : FileSystem) (os : Os) (s : Server F)
    : List (Thread F) → Server F → Type 1 where
  begin : Interleaving F os s [] s
  arrive :
      {ts : List (Thread F)} {t : Server F} {A : Type 0}
      → Interleaving F os s ts t
      → panicked ts ≡ false
      → (m : Method A) → Interleaving F os s (thread (course F os m) ∷ ts) t
  step :
      {ts us : List (Thread F)} {t u : Server F}
      → Interleaving F os s ts t
      → panicked ts ≡ false
      → Move t ts us u
      → Interleaving F os s us u

-- What the accesses that are left of a thread do.
unfoldable pub ThreadWithin : {F : FileSystem} → (Server F → Server F → Type 0) → Thread F → Type 0
ThreadWithin R (thread c) = Within R c

-- A move is the next access of one thread, and leaves the others as they are.
pub Move-Within :
    {F : FileSystem} (R : Server F → Server F → Type 0) {s : Server F} {ts us : List (Thread F)}
    {t : Server F}
    → Move s ts us t
    → All (ThreadWithin R) ts
    → R s t × All (ThreadWithin R) us
unfolding ThreadWithin Within
Move-Within R here (h, hs) = ((h _).0, ((h _).1, hs))
Move-Within R (later m) (h, hs) = let (r, ks) = Move-Within R m hs in (r, (h, ks))
