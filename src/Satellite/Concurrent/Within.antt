-- ===== src/Satellite/Concurrent/Within.antt =====
-- What every access of a course does to the state, whatever the other goroutines do in between: the
-- rules by which courses are put together.
use dockerfuse.Base.{ℕ, ◌≡◌, refl, Option, none, some}
use dockerfuse.Os.{Os}
use dockerfuse.RpcCommon.Error.{return, fail, panic}
use dockerfuse.Satellite.FileSystem.{FileSystem, Try, done, raise}
use dockerfuse.Satellite.Table.{find}
use dockerfuse.Satellite.Server.{Server, Handler, pure, attempt, attempt_or, open_file_of, refuse}
use dockerfuse.Satellite.Server.Laws.{open_file_of-none, open_file_of-some}
use dockerfuse.Satellite.Concurrent.{Course, finish, access, atomic, ◌>>=◌, ◌>>◌, deferred}

module _ {F : FileSystem} (R : Server F → Server F → Type 0) where
  -- Every access of the course is a step of `R`.
  unfoldable pub Within : {A : Type 0} → Course F A → Type 0
  Within (finish r) = Unit
  Within (access change next) = (s : Server F) → R s (change s) × Within (next s)

  abbrev pub Steps : {A : Type 0} → Handler F A → Type 0
  Steps m = (s : Server F) → R s (m s).1

  -- The step that a call of the operating system makes.
  abbrev pub Along : {A : Type 0} → (F.World → A × F.World) → Type 0
  Along call = (s : Server F) → R s (record s { world = (call s.world).1 })

  pub Within-finish : {A : Type 0} (r : _) → Within {A = A} (finish r)
  unfolding Within
  Within-finish r = tt

  pub Within-atomic : {A : Type 0} (m : Handler F A) → Steps m → Within (atomic m)
  unfolding Within atomic
  Within-atomic m h s = (h s, tt)

  pub Within->>= :
      {A B : Type 0} (c : Course F A) (f : A → Course F B)
      → Within c
      → ((a : A) → Within (f a))
      → Within (c >>= f)
  unfolding Within ◌>>=◌
  Within->>= (finish (return a)) f h k = k a
  Within->>= (finish (fail t)) f h k = tt
  Within->>= (finish panic) f h k = tt
  Within->>= (access change next) f h k = λ s. ((h s).0, Within->>= (next s) f (h s).1 k)

  pub Within-then :
      {A B : Type 0} (m : Handler F A) (f : A → Course F B)
      → Steps m
      → ((a : A) → Within (f a))
      → Within (atomic m >>= f)
  Within-then m f h k = Within->>= (atomic m) f (Within-atomic m h) k

  pub Within-after :
      {A B : Type 0} (c : Course F A) (d : Course F B) → Within c → Within d → Within (c >> d)
  unfolding ◌>>◌
  Within-after c d h k = Within->>= c (λ _. d) h (λ _. k)

  pub Within-deferred :
      {A : Type 0} (last : Server F → Server F) (c : Course F A)
      → ((s : Server F) → R s (last s))
      → Within c
      → Within (deferred last c)
  unfolding Within deferred
  Within-deferred last (finish r) h k = λ s. (h s, tt)
  Within-deferred last (access change next) h k =
      λ s. ((k s).0, Within-deferred last (next s) h (k s).1)

  attempt_outcome :
      {A : Type 0} (os : Os) (r : Try A) (s : Server F) (w : F.World)
      → R s (record s { world = w })
      → R s (attempt os (λ _. (r, w)) s).1
  unfolding attempt refuse
  attempt_outcome os (done a) s w h = h
  attempt_outcome os (raise e) s w h = h

  pub Steps-attempt :
      {A : Type 0} (os : Os) (call : F.World → Try A × F.World)
      → Along call
      → Steps (attempt os call)
  unfolding attempt
  Steps-attempt os call h s = attempt_outcome os (call s.world).0 s (call s.world).1 (h s)

  attempt_or_outcome :
      {A : Type 0} (default : A) (r : Try A) (s : Server F) (w : F.World)
      → R s (record s { world = w })
      → R s (attempt_or default (λ _. (r, w)) s).1
  unfolding attempt_or
  attempt_or_outcome default (done a) s w h = h
  attempt_or_outcome default (raise e) s w h = h

  pub Steps-attempt_or :
      {A : Type 0} (default : A) (call : F.World → Try A × F.World)
      → Along call
      → Steps (attempt_or default call)
  unfolding attempt_or
  Steps-attempt_or default call h s =
      attempt_or_outcome default (call s.world).0 s (call s.world).1 (h s)

module _ {F : FileSystem} (R : Server F → Server F → Type 0) (stay : (s : Server F) → R s s) where
  pub Steps-pure : {A : Type 0} (a : A) → Steps R (pure a)
  unfolding pure
  Steps-pure a s = stay s

  found_outcome :
      (os : Os) (k : ℕ) (s : Server F) (o : Option F.File)
      → find s.fds k ≡ o
      → R s (open_file_of os k s).1
  found_outcome os k s none e = rw (open_file_of-none os k s e) (stay s)
  found_outcome os k s (some file) e = rw (open_file_of-some os k s file e) (stay s)

  pub Steps-open_file_of : (os : Os) (k : ℕ) → Steps R (open_file_of os k)
  Steps-open_file_of os k s = found_outcome os k s (find s.fds k) refl
