-- ===== src/Program/Steps.antt =====
-- How the steps of main follow one another: where a step goes on, and where it exits.
use dockerfuse.Base.{ℕ, ◌≡◌, refl, Bool, true, false, Option, none, some, arith}
use dockerfuse.Client.Rpc.{Reply, reply}
use dockerfuse.Program.{
  Machine, Step, next, exit, parent_returns, Main, ◌>>=◌, ◌>>◌, exit_if, or_exit, some_or_exit,
}

module _ (M : Machine) where
  pub >>-next :
      {A B : Type 0} (m : Main M A) (k : Main M B) (w w' : M.World) (a : A)
      → m w ≡ (next a, w')
      → ◌>>◌ M m k w ≡ k w'
  unfolding ◌>>◌ ◌>>=◌
  >>-next m k w w' a e = ground arith

  pub >>-exit :
      {A B : Type 0} (m : Main M A) (k : Main M B) (w w' : M.World) (n : ℕ)
      → m w ≡ (exit n, w')
      → ◌>>◌ M m k w ≡ (exit n, w')
  unfolding ◌>>◌ ◌>>=◌
  >>-exit m k w w' n e = ground arith

  pub exit_if-next : (b : Bool) (n : ℕ) (w : M.World) → b ≡ false → exit_if M b n w ≡ (next tt, w)
  unfolding exit_if
  exit_if-next b n w e = rw e

  pub exit_if-exit : (b : Bool) (n : ℕ) (w : M.World) → b ≡ true → exit_if M b n w ≡ (exit n, w)
  unfolding exit_if
  exit_if-exit b n w e = rw e

  pub >>=-next :
      {A B : Type 0} (m : Main M A) (f : A → Main M B) (w w' : M.World) (a : A)
      → m w ≡ (next a, w')
      → ◌>>=◌ M m f w ≡ f a w'
  unfolding ◌>>=◌
  >>=-next m f w w' a e = ground arith

  pub or_exit-next :
      {A : Type 0} (n : ℕ) (call : M.World → Reply A × M.World) (w w' : M.World) (a : A)
      → call w ≡ (reply a, w')
      → or_exit M n call w ≡ (next a, w')
  unfolding or_exit
  or_exit-next n call w w' a e = ground arith

  pub some_or_exit-next :
      {A : Type 0} (n : ℕ) (o : Option A) (w : M.World) (a : A)
      → o ≡ some a
      → some_or_exit M n o w ≡ (next a, w)
  unfolding some_or_exit
  some_or_exit-next n o w a e = rw e

  -- A chain that goes on has gone through its first step.
  pub >>=-next_inv :
      {A B : Type 0} (m : Main M A) (f : A → Main M B) (w w' : M.World) (b : B)
      → ◌>>=◌ M m f w ≡ (next b, w')
      → (a : A) × (w1 : M.World) × (m w ≡ (next a, w1)) × (f a w1 ≡ (next b, w'))
  unfolding ◌>>=◌
  >>=-next_inv m f w w' b e = by_step (m w) refl
    where
      by_step :
          (r : Step _ × M.World)
          → m w ≡ r
          → (a : _) × (w1 : M.World) × (m w ≡ (next a, w1)) × (f a w1 ≡ (next b, w'))
      by_step (next a, w1) h = (a, w1, h, ground arith)
      by_step (exit n, w1) h = ground arith
      by_step (parent_returns, w1) h = ground arith

  pub >>-next_inv :
      {A B : Type 0} (m : Main M A) (k : Main M B) (w w' : M.World) (b : B)
      → ◌>>◌ M m k w ≡ (next b, w')
      → (a : A) × (w1 : M.World) × (m w ≡ (next a, w1)) × (k w1 ≡ (next b, w'))
  unfolding ◌>>◌
  >>-next_inv m k w w' b e = >>=-next_inv m (λ _. k) w w' b e

  pub or_exit-next_inv :
      {A : Type 0} (n : ℕ) (call : M.World → Reply A × M.World) (w w' : M.World) (a : A)
      → or_exit M n call w ≡ (next a, w')
      → call w ≡ (reply a, w')
  unfolding or_exit
  or_exit-next_inv n call w w' a e = ground arith

  -- A chain that goes on has passed its test, found its value, or got its reply.
  pub exit_if->>_inv :
      {B : Type 0} (c : Bool) (n : ℕ) (k : Main M B) (w w' : M.World) (b : B)
      → ◌>>◌ M (exit_if M c n) k w ≡ (next b, w')
      → (c ≡ false) × (k w ≡ (next b, w'))
  unfolding exit_if ◌>>◌ ◌>>=◌
  exit_if->>_inv true n k w w' b e = ground arith
  exit_if->>_inv false n k w w' b e = (refl, e)

  pub some_or_exit->>=_inv :
      {A B : Type 0} (n : ℕ) (o : Option A) (f : A → Main M B) (w w' : M.World) (b : B)
      → ◌>>=◌ M (some_or_exit M n o) f w ≡ (next b, w')
      → (a : A) × (o ≡ some a) × (f a w ≡ (next b, w'))
  unfolding some_or_exit ◌>>=◌
  some_or_exit->>=_inv n none f w w' b e = ground arith
  some_or_exit->>=_inv n (some a) f w w' b e = (a, refl, e)

  pub or_exit->>=_inv :
      {A B : Type 0} (n : ℕ) (call : M.World → Reply A × M.World) (f : A → Main M B)
      (w w' : M.World) (b : B)
      → ◌>>=◌ M (or_exit M n call) f w ≡ (next b, w')
      → (a : A) × (w1 : M.World) × (call w ≡ (reply a, w1)) × (f a w1 ≡ (next b, w'))
  or_exit->>=_inv n call f w w' b e =
      let (a, w1, h, k) = >>=-next_inv (or_exit M n call) f w w' b e in
      (a, w1, or_exit-next_inv n call w w1 a h, k)
