-- ===== src/Satellite/Concurrent/Runs.antt =====
-- A course that nothing interrupts is the handler of server.go as a whole: the rules.
use mathlib.Core.Path.{fun_ext, ap₂}
use dockerfuse.Base.{◌≡◌, refl, ◌∙◌}
use dockerfuse.RpcCommon.Error.{return, fail, panic}
use dockerfuse.Satellite.FileSystem.{FileSystem}
use dockerfuse.Satellite.Server.{Server, Handler}
use dockerfuse.Satellite.Server
use dockerfuse.Satellite.Concurrent.{Course, finish, access, atomic, ◌>>=◌, ◌>>◌, run}

-- The course `c` does what the handler `m` does.
abbrev pub Runs : {F : FileSystem} {A : Type 0} → Course F A → Handler F A → Type 0
Runs c m = run c ≡ m

pub Runs-atomic : {F : FileSystem} {A : Type 0} (m : Handler F A) → Runs (atomic m) m
unfolding atomic run
Runs-atomic m = refl

pub Runs-pure :
    {F : FileSystem} {A : Type 0} (a : A) → Runs {F = F} (finish (return a)) (Server.pure a)
unfolding run Server.pure
Runs-pure a = refl

module _ {F : FileSystem} where
  bind_outcome :
      {A B : Type 0} (c : Course F A) (f : A → Course F B) (s : Server F)
      → run (c >>= f) s ≡ Server.◌>>=◌ (run c) (λ a. run (f a)) s
  unfolding run ◌>>=◌ Server.◌>>=◌
  bind_outcome (finish (return a)) f s = refl
  bind_outcome (finish (fail t)) f s = refl
  bind_outcome (finish panic) f s = refl
  bind_outcome (access change next) f s = bind_outcome (next s) f (change s)

  pub Runs->>= :
      {A B : Type 0} (c : Course F A) (m : Handler F A) (f : A → Course F B) (g : A → Handler F B)
      → Runs c m
      → ((a : A) → Runs (f a) (g a))
      → Runs (c >>= f) (Server.◌>>=◌ m g)
  Runs->>= c m f g h k = fun_ext (bind_outcome c f) ∙ ap₂ Server.◌>>=◌ h (fun_ext k)

  pub Runs->> :
      {A B : Type 0} (c : Course F A) (m : Handler F A) (d : Course F B) (n : Handler F B)
      → Runs c m
      → Runs d n
      → Runs (c >> d) (Server.◌>>◌ m n)
  unfolding ◌>>◌ Server.◌>>◌
  Runs->> c m d n h k = Runs->>= c m (λ _. d) (λ _. n) h (λ _. k)
