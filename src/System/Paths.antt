-- ===== src/System/Paths.antt =====
-- The operations on paths from the client's side.
use dockerfuse.Base.{ℕ, ◌≡◌, refl, some}
use dockerfuse.Base.Text.{Text}
use dockerfuse.Os.{Os}
use dockerfuse.Satellite.FileSystem.{FileSystem, Try}
use dockerfuse.Satellite.Server.{Server}
use dockerfuse.Satellite.Dispatch.{dispatch}
use dockerfuse.Satellite.Paths
use dockerfuse.Satellite.Paths.{dir_entry, is_not_exist, file_info, read_entries}
use dockerfuse.Client.Rpc.{Client, Outcome}
use dockerfuse.Client.Calls
use dockerfuse.Client.Calls.{listed_entries}
use dockerfuse.System.Link.{satellite_rpc, connected}
use dockerfuse.System.Refusals.{answered, attempt_alone_across, attempt_across}

module _ (F : FileSystem) (server_os client_os : Os) (c : Client (satellite_rpc F server_os))
    (s : Server F) where
  -- What the caller gets for an answer of the operating system.
  abbrev pub seen : {A : Type 0} → Try A × F.World → Outcome A × Client (satellite_rpc F server_os)
  seen = answered F server_os client_os c s (λ v. v)

  -- Unlink, rmdir, rename, link, symlink and readlink of the client are the one call of the
  -- operating system in the container, and each of its answers arrives: a result as such, an error
  -- as the client's number, an error without a number as EIO.
  pub path_calls_across :
      (p q : Text) (flags : ℕ)
      → let conn = connected F server_os c (some s) in
        (Calls.unlink client_os p conn ≡ seen (F.remove p s.world))
        × (Calls.rmdir client_os p conn ≡ seen (F.remove p s.world))
        × (Calls.rename client_os p q flags conn ≡ seen (F.rename p q s.world))
        × (Calls.link client_os p q conn ≡ seen (F.link p q s.world))
        × (Calls.symlink client_os p q conn ≡ seen (F.symlink p q s.world))
        × (Calls.readlink client_os p conn ≡ seen (F.readlink p s.world))
  unfolding dispatch Calls.unlink Calls.rmdir Calls.rename Calls.link Calls.symlink Calls.readlink
      Paths.unlink Paths.rmdir Paths.rename Paths.link Paths.symlink Paths.readlink
  path_calls_across p q flags = (
    attempt_alone_across F server_os client_os _ _ c s s (F.remove p) refl,
    attempt_alone_across F server_os client_os _ _ c s s (F.remove p) refl,
    attempt_alone_across F server_os client_os _ _ c s s (F.rename p q) refl,
    attempt_alone_across F server_os client_os _ _ c s s (F.link p q) refl,
    attempt_alone_across F server_os client_os _ _ c s s (F.symlink p q) refl,
    attempt_across F server_os client_os _ _ c s s (F.readlink p) _ refl,
  )
