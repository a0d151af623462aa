-- ===== src/Satellite/Opening.antt =====
-- The course of Open: what it leaves in the table when open(2) succeeds, and when it fails.
use dockerfuse.Base.{ℕ, ◌≡◌, refl, ◌∙◌, none, arith}
use dockerfuse.Os.{Os}
use dockerfuse.RpcCommon.Error.{GoError, return, errno_to_rpc_error_string}
use dockerfuse.RpcCommon.Flags.{sa_flags_to_system}
use dockerfuse.RpcCommon.Types.{OpenRequest}
use dockerfuse.Satellite.FileSystem.{FileSystem, Try, done, raise}
use dockerfuse.Satellite.Table.{find, store}
use dockerfuse.Satellite.Server.{Server, ◌>>◌, attempt}
use dockerfuse.Satellite.Server.Laws.{>>=-return, >>-return, >>=-raise, attempt-done}
use dockerfuse.Satellite.Descriptors.{open_path, describe_open, close_stale, register}

pub close_stale-unused :
    {F : FileSystem} (k : ℕ) (s : Server F) → find s.fds k ≡ none → close_stale k s ≡ (return tt, s)
unfolding close_stale
close_stale-unused k s e = ground arith

module _ (F : FileSystem) (os : Os) (r : OpenRequest) (s : Server F) (w : F.World) where
  -- The call of OpenFile that Open makes.
  abbrev pub opening : F.World → Try F.File × F.World
  opening = F.open_file r.full_path (sa_flags_to_system os r.sa_flags) r.mode

  pub open_path-raise :
      (g : GoError)
      → opening s.world ≡ (raise g, w)
      → open_path F os r s ≡ (errno_to_rpc_error_string os g, record s { world = w })
  unfolding open_path
  open_path-raise g e = >>=-raise os opening _ s g w e

  registered :
      (f : F.File)
      → find s.fds (F.fd f) ≡ none
      → (close_stale (F.fd f) >> (register (F.fd f) f >> describe_open F os r f))
          (record s { world = w })
        ≡ describe_open F os r f (record { fds = store s.fds (F.fd f) f; world = w })
  unfolding register
  registered f unused =
      let t : Server F = record s { world = w } in
      >>-return (close_stale (F.fd f)) _ t t tt (close_stale-unused (F.fd f) t unused)
      ∙ >>-return (register (F.fd f) f) _ t _ tt refl

  pub open_path-done :
      (f : F.File)
      → opening s.world ≡ (done f, w)
      → find s.fds (F.fd f) ≡ none
      → open_path F os r s
        ≡ describe_open F os r f (record { fds = store s.fds (F.fd f) f; world = w })
  unfolding open_path
  open_path-done f e unused =
      >>=-return (attempt os opening) _ s (record s { world = w }) f
        (attempt-done os opening s f w e)
      ∙ registered f unused
