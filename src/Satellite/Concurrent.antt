-- ===== src/Satellite/Concurrent.antt =====
-- net/rpc serves each request of a connection in a goroutine of its own, and server.go takes no lock:
-- a handler is interrupted between any two accesses of the table or of the operating system. Each
-- access is taken as atomic here.
pub mod Courses
pub mod Runs
pub mod Refinement
pub mod Threads
pub mod Within
pub mod Quiet
pub mod Numbers
pub mod Orderly
pub mod Races
use dockerfuse.RpcCommon.Error.{Result, return, fail, panic}
use dockerfuse.Satellite.FileSystem.{FileSystem}
use dockerfuse.Satellite.Server.{Server, Handler}

-- What a handler still has to do: an access changes the state and goes on by what it has seen.
pub data Course (F : FileSystem) (A : Type 0) : Type 0 where
  finish : Result A → Course F A
  access : (Server F → Server F) → (Server F → Course F A) → Course F A

module _ {F : FileSystem} where
  -- One step of a handler as one access.
  unfoldable pub atomic : {A : Type 0} → Handler F A → Course F A
  atomic m = access (λ s. (m s).1) (λ s. finish (m s).0)

  infixl 5 ◌>>=◌ ◌>>◌
  unfoldable pub ◌>>=◌ : {A B : Type 0} → Course F A → (A → Course F B) → Course F B
  finish (return a) >>= f = f a
  finish (fail t) >>= f = finish (fail t)
  finish panic >>= f = finish panic
  access change next >>= f = access change (λ s. next s >>= f)

  unfoldable pub ◌>>◌ : {A B : Type 0} → Course F A → Course F B → Course F B
  unfolding ◌>>=◌
  m >> k = m >>= λ _. k

  -- defer: the change is made when the rest is over, whatever it answers.
  unfoldable pub deferred : {A : Type 0} → (Server F → Server F) → Course F A → Course F A
  deferred last (finish r) = access last (λ s. finish r)
  deferred last (access change next) = access change (λ s. deferred last (next s))

  -- A course that nothing interrupts.
  unfoldable pub run : {A : Type 0} → Course F A → Handler F A
  run (finish r) s = (r, s)
  run (access change next) s = run (next s) (change s)
