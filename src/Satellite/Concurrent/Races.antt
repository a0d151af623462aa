-- ===== src/Satellite/Concurrent/Races.antt =====
-- Interleavings of server.go's handlers that no lock prevents: one access, or one close, of the request
-- that came last.
pub mod CloseOpen
pub mod CloseClose
use dockerfuse.Base.{
  ℕ, ◌≡◌, ◌≢◌, refl, ◌∙◌, ap, subst, true, false, none, some, List, [], ◌∷◌, arith,
}
use dockerfuse.Base.Text.{Text}
use dockerfuse.Os.{Os}
use dockerfuse.RpcCommon.Error.{
  Result, other_cause, path_error, return, panic, errno_to_rpc_error_string,
}
use dockerfuse.RpcCommon.Flags.{sa_flags_to_system}
use dockerfuse.RpcCommon.Types.{OpenRequest, OpenReply}
use dockerfuse.Satellite.FileSystem.{FileSystem, Try, Stat, done, raise}
use dockerfuse.Satellite.Table.{find, store, remove, find-remove}
use dockerfuse.Satellite.Server.{Server, Handler, attempt, attempt_or, open_file_of}
use dockerfuse.Satellite.Server.Laws.{
  open_file_of-some, attempt-done, attempt-raise, attempt_or-target, target_of,
}
use dockerfuse.Satellite.Paths.{stat_reply}
use dockerfuse.Satellite.Descriptors.{register}
use dockerfuse.Satellite.OpenFiles.{OpenFiles}
use dockerfuse.Satellite.Dispatch.{open_path, close}
use dockerfuse.Satellite.Concurrent.{Course, finish, access, atomic, ◌>>=◌, ◌>>◌, deferred}
use dockerfuse.Satellite.Concurrent.Courses.{
  course, open_course, close_course, look_up, close_found, close_quietly, delete_entry,
  describe_course,
}
use dockerfuse.Satellite.Concurrent.Threads.{
  Thread, thread, panicked, Interleaving, begin, arrive, step, here, later,
}

-- The answer of a Close that succeeds.
abbrev pub success : Result (Unit {0})
success = return tt

abbrev pub panics : Result (Unit {0})
panics = panic

-- Some interleaving from `s` gets the threads to `ts`, in a state with `P`.
pub record LeadsTo (F : FileSystem) (os : Os) (s : Server F) (ts : List (Thread F))
    (P : Server F → Type 0) : Type 1 where
  pub final : Server F
  pub way : Interleaving F os s ts final
  pub holds : P final

module _ {F : FileSystem} {os : Os} {s : Server F} {ts : List (Thread F)} where
  pub first_access :
      {A B : Type 0} (m : Handler F A) (next : A → Course F B) {t u : Server F} {a : A}
      → m t ≡ (return a, u)
      → panicked ts ≡ false
      → Interleaving F os s (thread (atomic m >>= next) ∷ ts) t
      → Interleaving F os s (thread (next a) ∷ ts) u
  unfolding atomic ◌>>=◌ panicked
  first_access m next e alive i =
      subst (λ r. Interleaving F os s (thread (finish r.0 >>= next) ∷ ts) r.1) e (step i alive here)

  pub first_closes :
      {A : Type 0} (m : Handler F A) (last : Server F → Server F) {t u : Server F} {r : Result A}
      → m t ≡ (r, u)
      → panicked ts ≡ false
      → Interleaving F os s (thread (deferred last (atomic m)) ∷ ts) t
      → Interleaving F os s (thread (access last (λ _. finish r)) ∷ ts) u
  unfolding atomic deferred panicked
  first_closes m last e alive i =
      subst (λ r. Interleaving F os s (thread (access last (λ _. finish r.0)) ∷ ts) r.1) e
        (step i alive here)
