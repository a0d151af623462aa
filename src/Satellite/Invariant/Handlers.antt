-- ===== src/Satellite/Invariant/Handlers.antt =====
-- Every handler of DockerFuseFSOps keeps the table in step with the open files.
use dockerfuse.Base.{◌≡◌, refl, subst, Bool, true, false}
use dockerfuse.Os.{Os}
use dockerfuse.Satellite.FileSystem.{FileSystem}
use dockerfuse.Satellite.Server.{Server}
use dockerfuse.Satellite.OpenFiles.{OpenFiles}
use dockerfuse.Satellite.Dispatch
use dockerfuse.Satellite.Dispatch.{Method, dispatch}
use dockerfuse.Satellite.Concurrent.Courses.{course}
use dockerfuse.Satellite.Concurrent.Refinement.{run-course}
use dockerfuse.Satellite.Concurrent.Quiet.{opens_or_closes, Within-quiet}
use dockerfuse.Satellite.Invariant.Steps.{Mirrors}
use dockerfuse.Satellite.Invariant.Frame.{Unmoved, quiet_calls}
use dockerfuse.Satellite.Invariant.Rely.{Safe, Safe-quiet, Safe-run}
use dockerfuse.Satellite.Invariant.Opening.{Safe-open}
use dockerfuse.Satellite.Invariant.Closing.{Safe-close}

module _ {F : FileSystem} (L : OpenFiles F) (os : Os) where
  course_outcome :
      {A : Type 0} (m : Method A) (s : Server F)
      → Mirrors L s
      → (b : Bool) → opens_or_closes m ≡ b
      → Safe L (course F os m) s
  unfolding course opens_or_closes
  course_outcome m s v false e =
      Safe-quiet L _ s (Within-quiet (Unmoved L) (quiet_calls L) os m e) v
  course_outcome (Dispatch.open_path r) s v true e = Safe-open L os r s v
  course_outcome (Dispatch.close r) s v true e = Safe-close L os r s v
  course_outcome _ s v true e = absurd (cc)

  pub Safe-course :
      {A : Type 0} (m : Method A) (s : Server F) → Mirrors L s → Safe L (course F os m) s
  Safe-course m s v = course_outcome m s v (opens_or_closes m) refl

  -- In a system that keeps the promises of OpenFiles, whatever a request to the satellite answers,
  -- a panic included, its table of descriptors lists exactly the open files of the process
  -- afterwards, each under its own number, if it did before.
  pub dispatch-Mirrors :
      {A : Type 0} (m : Method A) (s : Server F) → Mirrors L s → Mirrors L (dispatch F os m s).1
  dispatch-Mirrors m s v =
      subst (λ h. Mirrors L (h s).1) (run-course F os m) (Safe-run L _ s (Safe-course m s v))
