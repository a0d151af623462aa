-- ===== src/Program/Ends.antt =====
-- The exit codes of main, and the ids that it mounts with.
use dockerfuse.Base.{
  subst, ℕ, ◌≡◌, refl, sym, ◌∙◌, ◌<◌, ◌≤◌, ◌^◌, Bool, true, false, ◌||◌, Option, none, some, [],
  arith,
}
use dockerfuse.Base.Int.{ℤ, pos, negsuc}
use dockerfuse.Base.Text.{Text, text_eq}
use dockerfuse.Client.Rpc.{Reply, reply, error}
use dockerfuse.Program.Steps.{>>-next, >>-exit, exit_if-next, exit_if-exit}
use dockerfuse.Program.{
  Flags, Machine, Step, next, exit, parent_returns, Main, ◌>>=◌, ◌>>◌, exit_if, or_exit,
  some_or_exit, return_if, detach, main, parse_id, atoi, error_args,
}

-- An exit code of an error.
unfoldable pub ExitsWithError : {A : Type 0} → Step A → Type 0
ExitsWithError (next a) = Unit
ExitsWithError (exit n) = (0 < n) × (n ≤ 7)
ExitsWithError parent_returns = Unit

module _ (M : Machine) where
  ExitsWithError-step :
      {A B : Type 0} (f : A → Main M B) (r : Step A × M.World)
      → ExitsWithError r.0
      → ((a : A) (w : M.World) → ExitsWithError (f a w).0)
      → ExitsWithError
          (elim r.0 as (λ _. Step B × M.World) [
            | next a ↦ f a r.1
            | exit n ↦ (exit n, r.1)
            | parent_returns ↦ (parent_returns, r.1)
          ]).0
  unfolding ExitsWithError
  ExitsWithError-step f (next a, w) h k = k a w
  ExitsWithError-step f (exit n, w) h k = h
  ExitsWithError-step f (parent_returns, w) h k = tt

  ExitsWithError->>= :
      {A B : Type 0} (m : Main M A) (f : A → Main M B) (w : M.World)
      → ((w : M.World) → ExitsWithError (m w).0)
      → ((a : A) (w : M.World) → ExitsWithError (f a w).0)
      → ExitsWithError (◌>>=◌ M m f w).0
  unfolding ◌>>=◌
  ExitsWithError->>= m f w h k = ExitsWithError-step f (m w) (h w) k

  ExitsWithError->> :
      {A B : Type 0} (m : Main M A) (k : Main M B) (w : M.World)
      → ((w : M.World) → ExitsWithError (m w).0)
      → ((w : M.World) → ExitsWithError (k w).0)
      → ExitsWithError (◌>>◌ M m k w).0
  unfolding ◌>>◌
  ExitsWithError->> m k w h h' = ExitsWithError->>= m (λ _. k) w h (λ _ w. h' w)

  exit_if-ExitsWithError :
      (b : Bool) (n : ℕ) (w : M.World) → 0 < n → n ≤ 7 → ExitsWithError (exit_if M b n w).0
  unfolding ExitsWithError exit_if
  exit_if-ExitsWithError true n w h k = (h, k)
  exit_if-ExitsWithError false n w h k = tt

  or_exit-ExitsWithError :
      {A : Type 0} (n : ℕ) (call : M.World → Reply A × M.World) (w : M.World)
      → 0 < n
      → n ≤ 7
      → ExitsWithError (or_exit M n call w).0
  unfolding ExitsWithError or_exit
  or_exit-ExitsWithError {A = A} n call w h k = by_reply (call w).0
    where
      by_reply :
          (r : Reply A)
          → ExitsWithError (elim r as (λ _. Step A) [ reply a ↦ next a | error t ↦ exit n ])
      by_reply (reply a) = tt
      by_reply (error t) = (h, k)

  some_or_exit-ExitsWithError :
      {A : Type 0} (n : ℕ) (o : Option A) (w : M.World)
      → 0 < n
      → n ≤ 7
      → ExitsWithError (some_or_exit M n o w).0
  unfolding ExitsWithError some_or_exit
  some_or_exit-ExitsWithError n none w h k = (h, k)
  some_or_exit-ExitsWithError n (some a) w h k = tt

  return_if-ExitsWithError : (b : Bool) (w : M.World) → ExitsWithError (return_if M b w).0
  unfolding ExitsWithError
  return_if-ExitsWithError true w = tt
  return_if-ExitsWithError false w = tt

  detach-ExitsWithError : (b : Bool) (w : M.World) → ExitsWithError (detach M b w).0
  unfolding ExitsWithError detach
  detach-ExitsWithError false w = tt
  detach-ExitsWithError true w =
      ExitsWithError->>= (or_exit M 2 M.reborn) (return_if M) w
        (λ w. or_exit-ExitsWithError 2 M.reborn w (omega arith) (omega arith))
        (λ b w. return_if-ExitsWithError b w)

  -- Unless the version is asked for, an exit code of main's start is one of the seven error codes,
  -- never 0.
  pub main-ExitsWithError :
      (flags : Flags) (w : M.World)
      → flags.print_version ≡ false
      → ExitsWithError (main M flags w).0
  unfolding main
  main-ExitsWithError flags w e =
      subst (λ (r : Step M.MountServer × M.World). ExitsWithError r.0)
        (sym (
          >>-next M (exit_if M flags.print_version 0) _ w w tt
            (exit_if-next M flags.print_version 0 w e)))
        (ExitsWithError->> _ _ w (λ w. exit_if-ExitsWithError _ 1 w (omega arith) (omega arith))
          λ w.
            ExitsWithError->> _ _ w (λ w. exit_if-ExitsWithError _ 1 w (omega arith) (omega arith))
              λ w.
                ExitsWithError->> _ _ w (λ w. detach-ExitsWithError _ w)
                  λ w.
                    ExitsWithError->> _ _ w
                      (λ w. or_exit-ExitsWithError 3 _ w (omega arith) (omega arith))
                      λ w.
                        ExitsWithError->>= _ _ w
                          (λ w. or_exit-ExitsWithError 4 _ w (omega arith) (omega arith))
                          λ user w.
                            ExitsWithError->>= _ _ w
                              (λ w. some_or_exit-ExitsWithError 5 _ w (omega arith) (omega arith))
                              λ uid w.
                                ExitsWithError->>= _ _ w
                                  (λ w.
                                    some_or_exit-ExitsWithError 5 _ w (omega arith) (omega arith))
                                  λ gid w.
                                    ExitsWithError->>= _ _ w
                                      (λ w.
                                        or_exit-ExitsWithError 6 _ w (omega arith) (omega arith))
                                      λ client w.
                                        or_exit-ExitsWithError 7 _ w (omega arith) (omega arith))

  -- Without a container or a mount point the program exits with code 1 before it calls anything.
  pub main_arguments :
      (flags : Flags) (w : M.World)
      → flags.print_version ≡ false
      → (text_eq flags.container_id [] || text_eq flags.mount_point []) ≡ true
      → main M flags w ≡ (exit error_args, w)
  unfolding main
  main_arguments flags w e missing = by_container (text_eq flags.container_id []) refl
    where
      by_container :
          (b : Bool) → text_eq flags.container_id [] ≡ b → main M flags w ≡ (exit error_args, w)
      by_container true h =
          >>-next M (exit_if M flags.print_version 0) _ w w tt (exit_if-next M _ 0 w e)
          ∙ >>-exit M (exit_if M (text_eq flags.container_id []) 1) _ w w 1 (exit_if-exit M _ 1 w h)
      by_container false h =
          >>-next M (exit_if M flags.print_version 0) _ w w tt (exit_if-next M _ 0 w e)
          ∙ >>-next M (exit_if M (text_eq flags.container_id []) 1) _ w w tt
              (exit_if-next M _ 1 w h)
          ∙ >>-exit M (exit_if M (text_eq flags.mount_point []) 1) _ w w 1
              (exit_if-exit M _ 1 w (ground arith))

-- An id that the mount gets is the user's whole number, and fits the 32 bits that it is put in.
pub parse_id_lem : (t : Text) (n : ℕ) → parse_id t ≡ some n → (atoi t ≡ some (pos n)) × (n < 2 ^ 32)
unfolding parse_id
parse_id_lem t n h = by_value (atoi t) refl
  where
    by_value : (o : Option ℤ) → atoi t ≡ o → (atoi t ≡ some (pos n)) × (n < 2 ^ 32)
    by_value none e = ground arith
    by_value (some (negsuc k)) e = ground arith
    by_value (some (pos k)) e = ground arith
