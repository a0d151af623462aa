-- ===== src/Satellite/Server.antt =====
-- cmd/satellite/server/server.go: the state of DockerFuseFSOps, and the steps that its handlers are
-- made of.
pub mod Laws
use dockerfuse.Base.{ℕ, ◌≡◌, Option, none, some, List, [], ◌∷◌}
use dockerfuse.Base.Text.{Text}
use dockerfuse.Os.{Os}
use dockerfuse.Os.Errno.{ErrorName, errno}
use dockerfuse.RpcCommon.Error.{
  GoError, syscall_errno, Result, return, fail, panic, errno_to_rpc_error_string,
}
use dockerfuse.Satellite.FileSystem.{FileSystem, Try, done, raise}
use dockerfuse.Satellite.Table.{Table, find, store, remove}

-- The table of open files, and the operating system below.
pub record Server (F : FileSystem) : Type 0 where
  pub fds : Table F.File
  pub world : F.World

-- A handler answers, and may change the table and the world whatever it answers.
abbrev pub Handler : FileSystem → Type 0 → Type 0
Handler F A = Server F → Result A × Server F

module _ {F : FileSystem} where
  unfoldable pub pure : {A : Type 0} → A → Handler F A
  pure a s = (return a, s)

  infixl 5 ◌>>=◌ ◌>>◌
  unfoldable pub ◌>>=◌ : {A B : Type 0} → Handler F A → (A → Handler F B) → Handler F B
  ◌>>=◌ m f s =
      let (r, s') = m s in
      elim r [ return a ↦ f a s' | fail t ↦ (fail t, s') | panic ↦ (panic, s') ]

  unfoldable pub ◌>>◌ : {A B : Type 0} → Handler F A → Handler F B → Handler F B
  unfolding ◌>>=◌
  m >> k = m >>= λ _. k

  -- return rpccommon.ErrnoToRPCErrorString(err)
  unfoldable pub refuse : {A : Type 0} → Os → GoError → Handler F A
  refuse os err s = (errno_to_rpc_error_string os err, s)

  -- A call below, and the early return on its error.
  unfoldable pub attempt : {A : Type 0} → Os → (F.World → Try A × F.World) → Handler F A
  unfolding refuse
  attempt os call s =
      let (r, w) = call s.world in
      elim r [
        | done a ↦ (return a, record s { world = w })
        | raise e ↦ refuse os e (record s { world = w })
      ]

  -- A call whose error is replaced by a value.
  unfoldable pub attempt_or : {A : Type 0} → A → (F.World → Try A × F.World) → Handler F A
  attempt_or default call s =
      let (r, w) = call s.world in
      elim r [
        | done a ↦ (return a, record s { world = w })
        | raise e ↦ (return default, record s { world = w })
      ]

  -- file, ok := fso.fds[fd]; if !ok { return EINVAL }
  unfoldable pub open_file_of : Os → ℕ → Handler F F.File
  unfolding refuse
  open_file_of os k s = elim (find s.fds k) [
    | none ↦ refuse os (syscall_errno (errno os ErrorName.einval)) s
    | some file ↦ (return file, s)
  ]

-- NewDockerFuseFSOps: no file is open.
unfoldable pub new_docker_fuse_fs_ops : (F : FileSystem) → F.World → Server F
new_docker_fuse_fs_ops F w = record { fds = []; world = w }

-- The loop of CloseAllFDs over the entries of the map, in some order: Go does not fix it. Each file is
-- closed, whatever Close answers, and its entry deleted.
unfoldable pub close_each : (F : FileSystem) → Table F.File → Server F → Server F
close_each F [] s = s
close_each F ((k, file) ∷ order) s =
    close_each F order (record { fds = remove s.fds k; world = (F.close file s.world).1 })

-- The entries that the loop goes over are those of the map.
unfoldable pub RangesOver {ℓ} : {A : Type ℓ} → Table A → Table A → Type ℓ
RangesOver order m = (k : ℕ) → find order k ≡ find m k

-- CloseAllFDs, with the order in which it goes over the map.
unfoldable pub close_all_fds : (F : FileSystem) → Table F.File → Server F → Server F
close_all_fds F order s = close_each F order s
