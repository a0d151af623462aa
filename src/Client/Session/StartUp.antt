-- ===== src/Client/Session/StartUp.antt =====
-- A new client runs the program that it has copied.
use dockerfuse.Base.{
  ℕ, ◌≡◌, refl, ◌∙◌, ap, false, ◌||◌, none, some, List, [], ◌∷◌, ◌++◌, length, All,
}
use dockerfuse.Base.Text.{Text, str, text_eq}
use dockerfuse.Client.Rpc.{Rpc, reply, error, Client}
use dockerfuse.Node.Paths.{slashed}
use dockerfuse.Client.Session.{
  Host, ask, with_client, disconnect, set_rpc_client, upload_satellite, connect_satellite,
  unconnected, start_up, returned, new_docker_fuse_client,
}
use dockerfuse.Node.Paths.Children.{IsName}
use dockerfuse.Client.Session.Beside.{beside-absolute}
use dockerfuse.Client.Session.Upload.{
  Architecture, architecture_name, file_name, remote_path, file_name-IsName, upload_satellite-done,
  upload_satellite-unsupported,
}
use dockerfuse.Client.Session.Laws.{
  >>=-reply, >>-reply, ask-reply, >>-error, wrapping-reply, wrapping-error,
}
use dockerfuse.Client.Session.Connection.{disconnect-none}

module _ {R : Rpc} (H : Host R) where
  connect_satellite-done :
      (c : Client R) (exec_id : Text) (conn : R.Conn) (w5 w6 w7 : H.World)
      → c.rpc_client ≡ none
      → H.container_exec_create c.container_id (c.satellite_full_remote_path ∷ []) w5
        ≡ (reply exec_id, w6)
      → H.container_exec_attach exec_id w6 ≡ (reply conn, w7)
      → connect_satellite H (c, w5) ≡ (reply tt, (record c { rpc_client = some conn }, w7))
  unfolding connect_satellite with_client set_rpc_client
  connect_satellite-done c exec_id conn w5 w6 w7 lost e6 e7 =
      >>-reply H (disconnect H) _ (c, w5) (c, w5) tt (disconnect-none H c w5 lost)
      ∙ >>=-reply H _ _ (c, w5) (c, w6) exec_id
          (ask-reply H (H.container_exec_create c.container_id (c.satellite_full_remote_path ∷ []))
            c w5 w6 exec_id e6)
      ∙ >>=-reply H (ask H (H.container_exec_attach exec_id)) _ (c, w6) (c, w7) conn
          (ask-reply H _ c w6 w7 conn e7)

  -- If the image is for arm64 or amd64, the client's executable stands at an absolute path of
  -- proper names and every call succeeds, NewDockerFuseClient reads the satellite of that
  -- architecture in the directory of its executable, writes an archive with one header of the
  -- satellite's file name, the mode 0700 and the size of the bytes that were read, and then exactly
  -- those bytes, copies this archive to /tmp, executes /tmp and that file name, and returns a
  -- client that is connected to it.
  pub new_docker_fuse_client_connects :
      (a : Architecture) (id image program : Text) (ws : List Text) (bin : List ℕ) (exec_id : Text)
      (conn : R.Conn) (tw1 tw2 : H.TarWriter) (w0 w1 w2 w3 w4 w5 w6 w7 : H.World)
      → All IsName ws
      → IsName program
      → H.container_inspect id w0 ≡ (reply image, w1)
      → H.image_inspect image w1 ≡ (reply (architecture_name a), w2)
      → H.executable w2 ≡ (reply (b'/' ∷ slashed (ws ++ (program ∷ []))), w3)
      → H.read_file (b'/' ∷ slashed (ws ++ (file_name a ∷ []))) w3 ≡ (reply bin, w4)
      → H.write_header (record { name = file_name a; mode = 448; size = length bin }) H.new_writer
        ≡ (reply tt, tw1)
      → H.write bin tw1 ≡ (reply tt, tw2)
      → H.copy_to_container id (str "/tmp") (H.close_writer tw2) w4 ≡ (reply tt, w5)
      → H.container_exec_create id (remote_path a ∷ []) w5 ≡ (reply exec_id, w6)
      → H.container_exec_attach exec_id w6 ≡ (reply conn, w7)
      → new_docker_fuse_client H id w0 ≡ (
        reply (record {
          rpc_client = some conn;
          container_id = id;
          satellite_full_remote_path = remote_path a;
        }),
        w7,
      )
  unfolding new_docker_fuse_client start_up
  new_docker_fuse_client_connects a id image program ws bin exec_id conn tw1 tw2 w0 w1 w2 w3 w4 w5
        w6 w7 names name e1 e2 e3 e4 headed written e5 e6 e7 =
      let c : Client R = unconnected H id in
      let c' : Client R = record c { satellite_full_remote_path = remote_path a } in
      let read =
        ap (λ p. H.read_file p w3)
          (beside-absolute ws program (file_name a) names name (file_name-IsName a))
        ∙ e4 in
      ap (returned H) (
        >>-reply H _ _ (c, w0) (c', w5) tt
          (wrapping-reply H _ (upload_satellite H) (c, w0) (c', w5)
            (upload_satellite-done H a c image (b'/' ∷ slashed (ws ++ (program ∷ []))) bin tw1 tw2
              w0 w1 w2 w3 w4 w5 e1 e2 e3 read headed written e5))
        ∙ wrapping-reply H _ (connect_satellite H) (c', w5) _
            (connect_satellite-done c' exec_id conn w5 w6 w7 refl e6 e7))

  -- If the image is for neither arm64 nor amd64, NewDockerFuseClient fails, and neither copies nor
  -- executes anything in the container.
  pub new_docker_fuse_client_unsupported :
      (architecture id image : Text) (w0 w1 w2 : H.World)
      → H.container_inspect id w0 ≡ (reply image, w1)
      → H.image_inspect image w1 ≡ (reply architecture, w2)
      → (text_eq architecture (str "arm64") || text_eq architecture (str "amd64")) ≡ false
      → new_docker_fuse_client H id w0 ≡ (
        error (
            str
              "error copying docker-fuse satellite to remote container: unsupported architecture: "
            ++ (architecture ++ str " (use arm64 or amd64)")),
        w2,
      )
  unfolding new_docker_fuse_client start_up
  new_docker_fuse_client_unsupported architecture id image w0 w1 w2 e1 e2 neither =
      let c : Client R = unconnected H id in
      ap (returned H) (
        >>-error H _ _ (c, w0) (c, w2) _
          (wrapping-error H _ _ (upload_satellite H) (c, w0) (c, w2)
            (upload_satellite-unsupported H architecture c image w0 w1 w2 e1 e2 neither)))
