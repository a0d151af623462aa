-- ===== src/Satellite/Server/Laws.antt =====
-- What each step of a handler does, as equations between answers.
use dockerfuse.Base.{ℕ, ◌≡◌, refl, Bool, true, false, none, some, [], arith, ◌++◌, if◌then◌else◌}
use dockerfuse.Base.Text.{Text, str, text_eq}
use dockerfuse.Os.{Os}
use dockerfuse.Os.Errno.{ErrorName, errno}
use dockerfuse.RpcCommon.Error.{
  errno_cause, not_exist_cause, other_cause, GoError, path_error, link_error, syscall_errno,
  not_exist, other, Result, return, fail, panic, eof, errno_text, errno_to_rpc_error_string,
}
use dockerfuse.Satellite.FileSystem.{FileSystem, Try, done, raise}
use dockerfuse.Satellite.Table.{find}
use dockerfuse.Satellite.Server.{
  Server, Handler, ◌>>=◌, ◌>>◌, refuse, attempt, attempt_or, open_file_of,
}

-- The target of a link, and no target where Readlink fails.
abbrev pub target_of : Try Text → Text
target_of (done t) = t
target_of (raise e) = []

-- A result that is no success.
unfoldable pub Refused : {A : Type 0} → Result A → Type 0
Refused (return a) = ⊥
Refused _ = Unit

pub error-Refused :
    (A : Type 0) (os : Os) (g : GoError) → Refused (errno_to_rpc_error_string {A = A} os g)
unfolding Refused errno_to_rpc_error_string
error-Refused A os (path_error (errno_cause n)) = tt
error-Refused A os (path_error not_exist_cause) = tt
error-Refused A os (path_error (other_cause n)) = tt
error-Refused A os (link_error (errno_cause n)) = tt
error-Refused A os (link_error not_exist_cause) = tt
error-Refused A os (link_error (other_cause n)) = tt
error-Refused A os (syscall_errno n) = tt
error-Refused A os not_exist = tt
error-Refused A os (other t) = by_text (text_eq t eof)
  where
    texts : Bool → Result A
    texts b = if b then fail t else fail (str "unknown error: " ++ t)

    by_text : (b : Bool) → Refused (texts b)
    by_text true = tt
    by_text false = tt

module _ {F : FileSystem} where
  pub >>=-return :
      {A B : Type 0} (m : Handler F A) (f : A → Handler F B) (s t : Server F) (a : A)
      → m s ≡ (return a, t)
      → (m >>= f) s ≡ f a t
  unfolding ◌>>=◌
  >>=-return m f s t a e = ground arith

  pub >>-return :
      {A B : Type 0} (m : Handler F A) (k : Handler F B) (s t : Server F) (a : A)
      → m s ≡ (return a, t)
      → (m >> k) s ≡ k t
  unfolding ◌>>◌
  >>-return m k s t a e = >>=-return m (λ _. k) s t a e

  pub >>=-fail :
      {A B : Type 0} (m : Handler F A) (f : A → Handler F B) (s t : Server F) (x : Text)
      → m s ≡ (fail x, t)
      → (m >>= f) s ≡ (fail x, t)
  unfolding ◌>>=◌
  >>=-fail m f s t x e = ground arith

  pub >>=-panic :
      {A B : Type 0} (m : Handler F A) (f : A → Handler F B) (s t : Server F)
      → m s ≡ (panic, t)
      → (m >>= f) s ≡ (panic, t)
  unfolding ◌>>=◌
  >>=-panic m f s t e = ground arith

  pub open_file_of-none :
      (os : Os) (k : ℕ) (s : Server F)
      → find s.fds k ≡ none
      → open_file_of os k s ≡ (fail (errno_text os (errno os ErrorName.einval)), s)
  unfolding open_file_of errno_to_rpc_error_string
  open_file_of-none os k s e = rw (open_file_of, e)

  pub open_file_of-some :
      (os : Os) (k : ℕ) (s : Server F) (file : F.File)
      → find s.fds k ≡ some file
      → open_file_of os k s ≡ (return file, s)
  unfolding open_file_of
  open_file_of-some os k s file e = rw (open_file_of, e)

  pub attempt-done :
      {A : Type 0} (os : Os) (call : F.World → Try A × F.World) (s : Server F) (a : A) (w : F.World)
      → call s.world ≡ (done a, w)
      → attempt os call s ≡ (return a, record s { world = w })
  unfolding attempt refuse
  attempt-done os call s a w e = ground arith

  pub attempt-raise :
      {A : Type 0} (os : Os) (call : F.World → Try A × F.World) (s : Server F) (g : GoError)
      (w : F.World)
      → call s.world ≡ (raise g, w)
      → attempt os call s ≡ (errno_to_rpc_error_string os g, record s { world = w })
  unfolding attempt refuse
  attempt-raise os call s g w e = ground arith

  pub attempt_or-done :
      {A : Type 0} (default : A) (call : F.World → Try A × F.World) (s : Server F) (a : A)
      (w : F.World)
      → call s.world ≡ (done a, w)
      → attempt_or default call s ≡ (return a, record s { world = w })
  unfolding attempt_or
  attempt_or-done default call s a w e = ground arith

  pub attempt_or-raise :
      {A : Type 0} (default : A) (call : F.World → Try A × F.World) (s : Server F) (g : GoError)
      (w : F.World)
      → call s.world ≡ (raise g, w)
      → attempt_or default call s ≡ (return default, record s { world = w })
  unfolding attempt_or
  attempt_or-raise default call s g w e = ground arith

  pub attempt_or-target :
      (p : Text) (s : Server F) (r : Try Text) (w : F.World)
      → F.readlink p s.world ≡ (r, w)
      → attempt_or [] (F.readlink p) s ≡ (return (target_of r), record s { world = w })
  attempt_or-target p s (done t) w e = attempt_or-done [] (F.readlink p) s t w e
  attempt_or-target p s (raise g) w e = attempt_or-raise [] (F.readlink p) s g w e

  -- Whatever the call answers, its world is the new one.
  pub attempt-world :
      {A : Type 0} (os : Os) (call : F.World → Try A × F.World) (s : Server F)
      → (attempt os call s).1 ≡ record s { world = (call s.world).1 }
  unfolding attempt refuse
  attempt-world os call s = ground arith

  -- An error is never taken for a result.
  refused :
      {A B : Type 0} (os : Os) (f : A → Handler F B) (g : GoError) (s : Server F)
      → (refuse os g >>= f) s ≡ (errno_to_rpc_error_string os g, s)
  unfolding refuse ◌>>=◌ errno_to_rpc_error_string
  refused os f (path_error (errno_cause n)) s = refl
  refused os f (path_error not_exist_cause) s = refl
  refused os f (path_error (other_cause n)) s = refl
  refused os f (link_error (errno_cause n)) s = refl
  refused os f (link_error not_exist_cause) s = refl
  refused os f (link_error (other_cause n)) s = refl
  refused os f (syscall_errno n) s = refl
  refused os f not_exist s = refl
  refused os f (other t) s = ground arith

  -- The early return: nothing after the failed call runs.
  pub >>=-raise :
      {A B : Type 0} (os : Os) (call : F.World → Try A × F.World) (f : A → Handler F B)
      (s : Server F) (g : GoError) (w : F.World)
      → call s.world ≡ (raise g, w)
      → (attempt os call >>= f) s ≡ (errno_to_rpc_error_string os g, record s { world = w })
  unfolding refuse ◌>>=◌ attempt
  >>=-raise os call f s g w e = ground (arith, refused os f g (record s { world = w }))
