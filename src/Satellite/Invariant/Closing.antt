-- ===== src/Satellite/Invariant/Closing.antt =====
-- Close while other requests come in between: from close(2) on, the table lists one file that is
-- closed, until its entry is deleted.
use dockerfuse.Base.{ℕ, ◌≡◌, ◌∙◌, ◌≢◌, false, some}
use dockerfuse.Os.{Os}
use dockerfuse.RpcCommon.Types.{CloseRequest}
use dockerfuse.Satellite.FileSystem.{FileSystem}
use dockerfuse.Satellite.Table.{find}
use dockerfuse.Satellite.Server.{Server, attempt}
use dockerfuse.Satellite.Server.Laws.{attempt-world}
use dockerfuse.Satellite.OpenFiles.{OpenFiles}
use dockerfuse.Satellite.Concurrent.{atomic, deferred}
use dockerfuse.Satellite.Concurrent.Courses.{close_course, delete_entry}
use dockerfuse.Satellite.Invariant.Steps.{Mirrors, Mirrors-unregister}
use dockerfuse.Satellite.Invariant.Frame.{Unmoved, Mirrors-Unmoved}
use dockerfuse.Satellite.Invariant.Rely.{Safe, Safe-open_file_of}

-- `f`, which stands under `k`, has been closed since the world was `before`, when the table listed
-- exactly the open files.
record Closed {F : FileSystem} (L : OpenFiles F) (k : ℕ) (f : F.File) (s : Server F) : Type 0 where
  before : F.World
  mirrors : Mirrors L (record { fds = s.fds; world = before })
  found : find s.fds k ≡ some f
  closed : L.is_open s.world f ≡ false
  others : (g : F.File) → g ≢ f → L.is_open s.world g ≡ L.is_open before g

module _ {F : FileSystem} (L : OpenFiles F) where
  Closed-Unmoved :
      (k : ℕ) (f : F.File) {s t : Server F} → Unmoved L s t → Closed L k f s → Closed L k f t
  Closed-Unmoved k f p v = record {
    before = v.before;
    mirrors = rw p.table v.mirrors;
    found = rw p.table v.found;
    closed = p.files f ∙ v.closed;
    others = λ g h. p.files g ∙ v.others g h;
  }

  Closed-delete :
      (k : ℕ) (f : F.File) (s : Server F) → Closed L k f s → Mirrors L (delete_entry k s)
  Closed-delete k f s v =
      Mirrors-unregister L (record { fds = s.fds; world = v.before }) s.world f k v.found v.closed
        v.others v.mirrors

  Safe-delete :
      (os : Os) (k : ℕ) (f : F.File) (s : Server F)
      → find s.fds k ≡ some f
      → Mirrors L s
      → Safe L (deferred (delete_entry k) (atomic (attempt os (F.close f)))) s
  unfolding deferred atomic Safe
  Safe-delete os k f s found v = λ t p u q.
      let closed : Closed L k f (attempt os (F.close f) t).1 =
        rw (attempt-world os (F.close f) t) (record {
          before = t.world;
          mirrors = Mirrors-Unmoved L p v;
          found = rw p.table found;
          closed = L.close_self f t.world;
          others = L.close_other f t.world;
        }) in
      Closed-delete k f u (Closed-Unmoved k f q closed)

  pub Safe-close :
      (os : Os) (r : CloseRequest) (s : Server F) → Mirrors L s → Safe L (close_course F os r) s
  unfolding close_course
  Safe-close os r s v =
      Safe-open_file_of L os r.fd _ s v
        λ t f p found. Safe-delete os r.fd f t found (Mirrors-Unmoved L p v)
