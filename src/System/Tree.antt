-- ===== src/System/Tree.antt =====
-- The operations of Node against the satellite.
use dockerfuse.Base.{ℕ, ◌≡◌, ◌∙◌, ap, some, List, [], ◌∷◌, ◌++◌, All}
use dockerfuse.Base.Int.{ℤ, pos}
use dockerfuse.Base.Text.{Text}
use dockerfuse.Os.{Os}
use dockerfuse.Os.Errno.{ErrorName}
use dockerfuse.Os.Errno
use dockerfuse.Satellite.FileSystem.{FileSystem, Try}
use dockerfuse.Satellite.Table.{find, remove}
use dockerfuse.Satellite.Server.{Server}
use dockerfuse.Client.Rpc.{Rpc, Action, Client, Outcome}
use dockerfuse.Client.Calls.{uintptr}
use dockerfuse.Node.Paths.{slashed, child_path}
use dockerfuse.Node.Paths.Children.{IsName, child_path-absolute}
use dockerfuse.Node.Operations
use dockerfuse.Node.Operations.{Node, ◌>>=◌}
use dockerfuse.Node.Operations.Children.{StandsAt, rename_target_relative}
use dockerfuse.System.Link.{satellite_rpc, connected}
use dockerfuse.System.Paths.{seen, path_calls_across}
use dockerfuse.System.Files.{close_then_einval}

-- An errno ends an operation.
stops :
    {R : Rpc} {A B : Type 0} (m : Action R A) (f : A → Action R B) (c c' : Client R) (e : ℕ)
    → m c ≡ (Outcome.errno e, c')
    → (m >>= f) c ≡ (Outcome.errno e, c')
unfolding ◌>>=◌
stops {R = R} {A = A} {B = B} m f c c' e h =
    ap
      (λ (x : Outcome A × Client R). elim x.0 as (λ _. Outcome B × Client R) [
        | Outcome.done a ↦ f a x.1
        | Outcome.errno n ↦ (Outcome.errno n, x.1)
        | Outcome.panic ↦ (Outcome.panic, x.1)
      ])
      h

module _ (F : FileSystem) (server_os client_os : Os) (c : Client (satellite_rpc F server_os))
    (s : Server F) where
  abbrev conn : Client (satellite_rpc F server_os)
  conn = connected F server_os c (some s)

  -- At a path of proper names, Unlink, Rmdir and Readlink of a node make the container's call on
  -- the node's absolute path; Rename passes an absolute source and a target that is relative to the
  -- satellite's working directory.
  pub tree_calls_across :
      (n : Node) (ws vs : List Text) (w v : Text) (flags : ℕ)
      → StandsAt ws n
      → IsName w
      → All IsName vs
      → IsName v
      → let path : Text = b'/' ∷ slashed (ws ++ (w ∷ [])) in
        (Operations.unlink client_os n w conn
          ≡ seen F server_os client_os c s (F.remove path s.world))
        × (Operations.rmdir client_os n w conn
            ≡ seen F server_os client_os c s (F.remove path s.world))
        × (Operations.readlink client_os n conn
            ≡ seen F server_os client_os c s (F.readlink (b'/' ∷ slashed ws) s.world))
        × (Operations.rename client_os n w (slashed vs) v flags conn
            ≡ seen F server_os client_os c s (F.rename path (slashed (vs ++ (v ∷ []))) s.world))
  unfolding Operations.unlink Operations.rmdir Operations.readlink
  tree_calls_across n ws vs w v flags at hw hvs hv =
      let path : Text = b'/' ∷ slashed (ws ++ (w ∷ [])) in
      let e : child_path n.full_path w ≡ path =
        ap (λ p. child_path p w) at.0 ∙ child_path-absolute ws w at.1 hw in
      let (removed, removed_dir, _, _, _, _) =
        path_calls_across F server_os client_os c s path path flags in
      let (_, _, _, _, _, link_read) =
        path_calls_across F server_os client_os c s (b'/' ∷ slashed ws) path flags in
      let (_, _, renamed, _, _, _) =
        path_calls_across F server_os client_os c s path (slashed (vs ++ (v ∷ []))) flags in
      (
        rw e removed,
        rw e removed_dir,
        rw at.0 link_read,
        ap (λ m. m conn) (rename_target_relative client_os n ws vs w v flags at hw hvs hv)
            ∙ renamed,
      )

  -- If a file is listed and its close succeeds, Flush closes it in the satellite; Release, and
  -- every read, write or fsync that still comes on the handle, then answers EINVAL.
  pub flush_then_einval :
      (n : Node) (k len flags whence : ℕ) (offset : ℤ) (bytes : List ℕ) (file : F.File)
      (w : F.World)
      → find s.fds k ≡ some file
      → F.close file s.world ≡ (Try.done tt, w)
      → let t : Server F = record { fds = remove s.fds k; world = w } in
        let after = connected F server_os c (some t) in
        let einval = Errno.errno client_os ErrorName.einval in
        (Operations.flush client_os n (uintptr k) conn ≡ (Outcome.done tt, after))
        × (Operations.release client_os n (uintptr k) after ≡ (Outcome.errno einval, after))
        × (Operations.read client_os n (uintptr k) len offset after ≡ (Outcome.errno einval, after))
        × (Operations.write client_os n (uintptr k) bytes offset after
            ≡ (Outcome.errno einval, after))
        × (Operations.fsync client_os n (uintptr k) flags after ≡ (Outcome.errno einval, after))
  unfolding Operations.flush Operations.release Operations.read Operations.write Operations.fsync
  flush_then_einval n k len flags whence offset bytes file w found e =
      let (cl, again, r, wr, _, fs) =
        close_then_einval F server_os client_os c s k len flags offset (pos whence) bytes file w
          found e in
      (cl, again, r, stops _ _ _ _ _ wr, fs)
