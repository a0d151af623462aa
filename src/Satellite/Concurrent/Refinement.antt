-- ===== src/Satellite/Concurrent/Refinement.antt =====
-- Each handler of server.go is the run of its course that nothing interrupts.
use mathlib.Core.Path.{fun_ext}
use dockerfuse.Base.{ℕ, ◌≡◌, refl, sym, ◌∙◌, ap, Option, none, some, List, [], ◌∷◌, arith}
use dockerfuse.Os.{Os}
use dockerfuse.RpcCommon.Types.{StatRequest, DirEntry, OpenRequest, CloseRequest}
use dockerfuse.Satellite.FileSystem.{FileSystem}
use dockerfuse.Satellite.Table.{find}
use dockerfuse.Satellite.Server.{Server, Handler, open_file_of, attempt}
use dockerfuse.Satellite.Server
use dockerfuse.Satellite.Server.Laws.{>>-return}
use dockerfuse.Satellite.Opening.{close_stale-unused}
use dockerfuse.Satellite.Paths
use dockerfuse.Satellite.Descriptors
use dockerfuse.Satellite.Attributes
use dockerfuse.Satellite.Dispatch
use dockerfuse.Satellite.Dispatch.{Method, dispatch}
use dockerfuse.Satellite.Concurrent.{Course, atomic, ◌>>=◌, ◌>>◌, deferred, run}
use dockerfuse.Satellite.Concurrent.Courses.{
  look_up, close_found, close_quietly, delete_entry, stat_course, entries_course, read_dir_course,
  describe_course, open_course, close_course, file_course, mkdir_course, set_attr_course, course,
}
use dockerfuse.Satellite.Concurrent.Runs.{Runs, Runs-atomic, Runs-pure, Runs->>=, Runs->>}

module _ {F : FileSystem} where
  close_stale-found :
      (k : ℕ) (s : Server F) (old : F.File)
      → find s.fds k ≡ some old
      → Descriptors.close_stale k s ≡ close_quietly old s
  unfolding Descriptors.close_stale close_quietly
  close_stale-found k s old e = ground arith

  -- The look-up and the close of a stale file are two accesses of what `close_stale` does.
  found_outcome :
      {B : Type 0} (k : ℕ) (d : Course F B) (n : Handler F B) (s : Server F)
      → Runs d n
      → (o : Option F.File) → find s.fds k ≡ o
      → run (close_found o >> d) s ≡ Server.◌>>◌ (Descriptors.close_stale k) n s
  unfolding run close_found close_quietly atomic ◌>>◌ ◌>>=◌
  found_outcome k d n s h none e =
      ap (λ m. m s) h
      ∙ sym (>>-return (Descriptors.close_stale k) n s s tt (close_stale-unused k s e))
  found_outcome k d n s h (some old) e =
      ap (λ m. m (close_quietly old s).1) h
      ∙ sym (>>-return (Descriptors.close_stale k) n s _ tt (close_stale-found k s old e))

  Runs-close_stale :
      {B : Type 0} (k : ℕ) (d : Course F B) (n : Handler F B)
      → Runs d n
      → Runs
          (atomic (look_up k) >>= λ old. close_found old >> d)
          (Server.◌>>◌ (Descriptors.close_stale k) n)
  unfolding run look_up atomic ◌>>=◌
  Runs-close_stale k d n h = fun_ext (λ s. found_outcome k d n s h (find s.fds k) refl)

  -- One access, and the rest.
  Runs-then :
      {A B : Type 0} (m : Handler F A) (f : A → Course F B) (g : A → Handler F B)
      → ((a : A) → Runs (f a) (g a))
      → Runs (atomic m >>= f) (Server.◌>>=◌ m g)
  Runs-then m f g = Runs->>= (atomic m) m f g (Runs-atomic m)

  Runs-after :
      {A B : Type 0} (m : Handler F A) (d : Course F B) (n : Handler F B)
      → Runs d n
      → Runs (atomic m >> d) (Server.◌>>◌ m n)
  Runs-after m d n = Runs->> (atomic m) m d n (Runs-atomic m)

-- The rules for a `do` block.
ruleset runs_rules = (Runs-pure, Runs-atomic, Runs-then, Runs-after)

module _ (F : FileSystem) (os : Os) where
  Runs-stat : (r : StatRequest) → Runs (stat_course F os r) (Paths.stat F os r)
  unfolding stat_course Paths.stat
  Runs-stat r = search runs_rules

  Runs-entries :
      (files : List F.Entry) (entries : List DirEntry)
      → Runs (entries_course F os files entries) (Paths.read_entries F os files entries)
  unfolding entries_course Paths.read_entries
  Runs-entries [] entries = Runs-pure entries
  Runs-entries (file ∷ files) entries = Runs-then _ _ _ λ info. Runs-entries files _

  pub Runs-describe :
      (r : OpenRequest) (file : F.File)
      → Runs (describe_course F os r file) (Descriptors.describe_open F os r file)
  unfolding describe_course Descriptors.describe_open
  Runs-describe r file = Runs-then _ _ _ λ sys. Runs-then _ _ _ λ target. Runs-pure _

  Runs-open : (r : OpenRequest) → Runs (open_course F os r) (Descriptors.open_path F os r)
  unfolding open_course Descriptors.open_path
  Runs-open r =
      Runs-then _ _ _
        λ file. Runs-close_stale (F.fd file) _ _ (Runs-after _ _ _ (Runs-describe r file))

  Runs-delete :
      (k : ℕ) (file : F.File)
      → Runs
          (deferred (delete_entry k) (atomic (attempt os (F.close file))))
          (Descriptors.close_and_delete F os k file)
  unfolding deferred atomic run Descriptors.close_and_delete
  Runs-delete k file = refl

  Runs-close : (r : CloseRequest) → Runs (close_course F os r) (Descriptors.close F os r)
  unfolding close_course Descriptors.close
  Runs-close r = Runs-then _ _ _ (Runs-delete r.fd)

  -- The accesses of a handler, one after the other with nothing in between, answer and leave
  -- exactly what the handler does as one step, for every method.
  pub run-course : {A : Type 0} (m : Method A) → run (course F os m) ≡ dispatch F os m
  unfolding course dispatch read_dir_course mkdir_course set_attr_course file_course Paths.unlink
      Paths.rmdir Paths.rename Paths.readlink Paths.link Paths.symlink Paths.mkdir Paths.read_dir
      Descriptors.read Descriptors.seek Descriptors.write Descriptors.fsync Attributes.set_attr
  run-course (Dispatch.stat r) = Runs-stat r
  run-course (Dispatch.read_dir r) =
      Runs-then _ _ _ λ files. Runs->>= _ _ _ _ (Runs-entries files []) λ entries. Runs-pure _
  run-course (Dispatch.open_path r) = Runs-open r
  run-course (Dispatch.close r) = Runs-close r
  run-course (Dispatch.mkdir r) = search (runs_rules, Runs-stat)
  run-course (Dispatch.set_attr r) = search (runs_rules, Runs-stat)
  run-course _ = search runs_rules
