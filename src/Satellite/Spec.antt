-- ===== src/Satellite/Spec.antt =====
-- What each request to the file server makes of the table of descriptors, seen as a map from numbers to
-- files, whatever the operating system does.
pub mod Refinement
use dockerfuse.Base.{
  ℕ, ◌≡◌, refl, sym, ◌∙◌, ap, subst, ◌⊎◌, inl, inr, Bool, true, false, Option, none, some, ◌==◌,
  if◌then◌else◌, arith, [], ◌++◌,
}
use dockerfuse.Base.Text.{str, text_eq}
use dockerfuse.Satellite.Opening.{opening, open_path-raise}
use dockerfuse.Os.{Os}
use dockerfuse.RpcCommon.Error.{
  errno_cause, other_cause, GoError, path_error, link_error, syscall_errno, not_exist, other,
  Result, return, fail, panic, errno_to_rpc_error_string, eof,
}
use dockerfuse.RpcCommon.Types.{OpenRequest, OpenReply, CloseRequest}
use dockerfuse.Satellite.FileSystem.{FileSystem, Try, Stat, done, raise}
use dockerfuse.Satellite.Table.{find, store, remove, find-store, find-remove}
use dockerfuse.Satellite.Server.{Server, Handler, attempt, attempt_or, pure, open_file_of, ◌>>◌}
use dockerfuse.Satellite.Server.Laws.{
  >>=-return, >>=-raise, >>=-fail, >>-return, attempt-done, attempt-world, open_file_of-none,
  open_file_of-some, attempt_or-target,
}
use dockerfuse.Satellite.Descriptors
use dockerfuse.Satellite.Server.Laws.{Refused}
use dockerfuse.Satellite.Dispatch
use dockerfuse.Satellite.Dispatch.{Method, dispatch}
use dockerfuse.Satellite.Concurrent.{Course, finish, access, run}
use dockerfuse.Satellite.Concurrent.Courses.{course}
use dockerfuse.Satellite.Concurrent.Refinement.{run-course, Runs-describe}
use dockerfuse.Satellite.Concurrent.Within.{Within}
use dockerfuse.Satellite.Concurrent.Quiet.{
  QuietCalls, opens_or_closes, Within-quiet, Within-describe,
}

-- The open files by number.
abbrev pub FileMap : FileSystem → Type 0
FileMap F = ℕ → Option F.File

-- An answer of Open that is no success, or that names the file with that number.
unfoldable pub Names : ℕ → Result OpenReply → Type 0
Names k (return reply) = reply.fd ≡ k
Names k _ = Unit

-- Open fails and leaves the map, or it puts a file under its number in the place of what was there; it
-- may fail after that, and if it succeeds it answers that number.
abbrev pub AfterOpen : (F : FileSystem) → Result OpenReply → FileMap F → FileMap F → Type 0
AfterOpen F r before after =
    (Refused r × ((j : ℕ) → after j ≡ before j))
    ⊎ ((f : F.File) × Names (F.fd f) r
        × ((j : ℕ) → after j ≡ (if j == F.fd f then some f else before j)))

-- The map that a request may leave, by its answer.
unfoldable pub After :
    (F : FileSystem) → {A : Type 0} → Method A → Result A → FileMap F → FileMap F → Type 0
After F (Dispatch.open_path x) r before after = AfterOpen F r before after
After F (Dispatch.close x) r before after =
    (j : ℕ) → after j ≡ (if j == x.fd then none else before j)
After F _ r before after = (j : ℕ) → after j ≡ before j
