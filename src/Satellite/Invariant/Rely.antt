-- ===== src/Satellite/Invariant/Rely.antt =====
-- A course that restores the invariant at its end, whatever quiet accesses come in between.
use dockerfuse.Base.{ℕ, ◌≡◌, refl, Option, none, some}
use dockerfuse.Os.{Os}
use dockerfuse.RpcCommon.Error.{return, GoError, Result, panic, fail}
use dockerfuse.Satellite.FileSystem.{FileSystem, Try, done, raise}
use dockerfuse.Satellite.Server.{Server, Handler, attempt, open_file_of}
use dockerfuse.Satellite.Server.Laws.{
  Refused, error-Refused, attempt-done, attempt-raise, open_file_of-none, open_file_of-some,
}
use dockerfuse.Satellite.Table.{find}
use dockerfuse.Satellite.OpenFiles.{OpenFiles}
use dockerfuse.Satellite.Concurrent.{Course, finish, access, atomic, ◌>>=◌, run}
use dockerfuse.Satellite.Concurrent.Within.{Within}
use dockerfuse.Satellite.Invariant.Steps.{Mirrors}
use dockerfuse.Satellite.Invariant.Frame.{Unmoved, Unmoved-refl, Unmoved-trans, Mirrors-Unmoved}

module _ {F : FileSystem} (L : OpenFiles F) where
  unfoldable pub Safe : {A : Type 0} → Course F A → Server F → Type 0
  Safe (finish r) s = Mirrors L s
  Safe (access change next) s = (t : Server F) → Unmoved L s t → Safe (next t) (change t)

  pub Safe-Unmoved :
      {A : Type 0} (c : Course F A) {s t : Server F} → Unmoved L s t → Safe c s → Safe c t
  unfolding Safe
  Safe-Unmoved (finish r) p h = Mirrors-Unmoved L p h
  Safe-Unmoved (access change next) p h = λ u q. h u (Unmoved-trans L p q)

  pub Safe-quiet :
      {A : Type 0} (c : Course F A) (s : Server F) → Within (Unmoved L) c → Mirrors L s → Safe c s
  unfolding Safe Within
  Safe-quiet (finish r) s h v = v
  Safe-quiet (access change next) s h v = λ t p.
      Safe-quiet (next t) (change t) (h t).1 (Mirrors-Unmoved L (h t).0 (Mirrors-Unmoved L p v))

  -- The state that a safe course leaves when nothing interrupts it.
  pub Safe-run : {A : Type 0} (c : Course F A) (s : Server F) → Safe c s → Mirrors L (run c s).1
  unfolding Safe run
  Safe-run (finish r) s h = h
  Safe-run (access change next) s h = Safe-run (next s) (change s) (h s (Unmoved-refl L s))

  pub Safe-finish : {A : Type 0} (r : Result A) (s : Server F) → Mirrors L s → Safe (finish r) s
  unfolding Safe
  Safe-finish r s v = v

  pub Safe-access :
      {A : Type 0} (change : Server F → Server F) (next : Server F → Course F A) (s : Server F)
      → ((t : Server F) → Unmoved L s t → Safe (next t) (change t))
      → Safe (access change next) s
  unfolding Safe
  Safe-access change next s h = h

  -- One access by what it answers.
  pub Safe-then :
      {A B : Type 0} (m : Handler F A) (f : A → Course F B) (s : Server F)
      → ((t : Server F) → Unmoved L s t → Safe (finish (m t).0 >>= f) (m t).1)
      → Safe (atomic m >>= f) s
  unfolding Safe atomic ◌>>=◌
  Safe-then m f s h = h

  failed_outcome :
      {A B : Type 0} (f : A → Course F B) (r : Result A) (u : Server F)
      → Refused r
      → Mirrors L u
      → Safe (finish r >>= f) u
  unfolding ◌>>=◌ Safe Refused
  failed_outcome f (return a) u h v = absurd h
  failed_outcome f (fail t) u h v = v
  failed_outcome f panic u h v = v

  call_outcome :
      {A B : Type 0} (os : Os) (call : F.World → Try A × F.World) (f : A → Course F B)
      (t : Server F)
      → ((a : A) (w : F.World) → call t.world ≡ (done a, w) → Safe (f a) (record t { world = w }))
      → ((g : GoError) (w : F.World)
          → call t.world ≡ (raise g, w)
          → Mirrors L (record t { world = w }))
      → (r : Try A) (w : F.World) → call t.world ≡ (r, w)
      → Safe (finish (attempt os call t).0 >>= f) (attempt os call t).1
  unfolding ◌>>=◌
  call_outcome os call f t good bad (done a) w e = rw (attempt-done os call t a w e) (good a w e)
  call_outcome os call f t good bad (raise g) w e =
      rw (attempt-raise os call t g w e) (failed_outcome f _ _ (error-Refused _ os g) (bad g w e))

  -- A call of the operating system by what it answers.
  pub Safe-attempt :
      {A B : Type 0} (os : Os) (call : F.World → Try A × F.World) (f : A → Course F B)
      (s : Server F)
      → ((t : Server F) (a : A) (w : F.World)
          → Unmoved L s t
          → call t.world ≡ (done a, w)
          → Safe (f a) (record t { world = w }))
      → ((t : Server F) (g : GoError) (w : F.World)
          → Unmoved L s t
          → call t.world ≡ (raise g, w)
          → Mirrors L (record t { world = w }))
      → Safe (atomic (attempt os call) >>= f) s
  Safe-attempt os call f s good bad = Safe-then (attempt os call) f s λ t p.
      call_outcome os call f t (λ a w. good t a w p) (λ g w. bad t g w p) (call t.world).0
        (call t.world).1 refl

  found_outcome :
      {B : Type 0} (os : Os) (k : ℕ) (f : F.File → Course F B) (t : Server F)
      → ((file : F.File) → find t.fds k ≡ some file → Safe (f file) t)
      → Mirrors L t
      → (o : Option F.File) → find t.fds k ≡ o
      → Safe (finish (open_file_of os k t).0 >>= f) (open_file_of os k t).1
  unfolding ◌>>=◌ Safe
  found_outcome os k f t good v none e = rw (open_file_of-none os k t e) v
  found_outcome os k f t good v (some file) e = rw (open_file_of-some os k t file e) (good file e)

  -- The look-up of a descriptor, by what it finds.
  pub Safe-open_file_of :
      {B : Type 0} (os : Os) (k : ℕ) (f : F.File → Course F B) (s : Server F)
      → Mirrors L s
      → ((t : Server F) (file : F.File)
          → Unmoved L s t
          → find t.fds k ≡ some file
          → Safe (f file) t)
      → Safe (atomic (open_file_of os k) >>= f) s
  Safe-open_file_of os k f s v good = Safe-then (open_file_of os k) f s λ t p.
      found_outcome os k f t (λ file. good t file p) (Mirrors-Unmoved L p v) (find t.fds k) refl
