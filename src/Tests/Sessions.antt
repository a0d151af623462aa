-- ===== src/Tests/Sessions.antt =====
-- A client that starts its satellite, on a Docker host of one container.
use dockerfuse.Base.{◌≡◌, ◌↔◌, refl, false, ◌||◌, none, some, List, [], ◌∷◌, ◌++◌, if◌then◌else◌}
use dockerfuse.Base.Text.{Text, str, text_eq, has_prefix}
use dockerfuse.Os.{linux}
use dockerfuse.Client.Rpc.{reply, error, Client}
use dockerfuse.Node.Paths.{slashed}
use dockerfuse.Node.Paths.Children.{IsName, no_slash}
use dockerfuse.Client.Session.{Host, connect_satellite, new_docker_fuse_client}
use dockerfuse.Client.Session.Connection.{LeavesConnection, connect_satellite-LeavesConnection}
use dockerfuse.Client.Session.Upload.{amd64}
use dockerfuse.Client.Session.StartUp.{
  new_docker_fuse_client_connects, new_docker_fuse_client_unsupported,
}
use dockerfuse.Client.Options.{
  Environment, docker_host, new_client_from_env, with_http_client, with_host, with_dial_context,
  with_api_version_negotiation,
}
use dockerfuse.Client.Options.Laws.{Connects, over_ssh, negotiated, new_client_from_env-Connects}
use dockerfuse.System.Link.{satellite_rpc}
use dockerfuse.Tests.Handlers.{F, first_server}

-- The world is the list of files in the container, with their bytes behind their paths.
abbrev host : Text → Host (satellite_rpc F linux)
host architecture = record {
  World = List Text;
  container_inspect = λ id w. (
    if text_eq id (str "web") then reply (str "sha256:1") else error (str "No such container"),
    w,
  );
  image_inspect = λ image w. (reply architecture, w);
  copy_to_container = λ id p archive w. (reply tt, (p ++ (b'/' ∷ archive)) ∷ w);
  container_exec_create = λ id cmd w. (reply (str "exec1"), w);
  container_exec_attach = λ id w. (reply (some first_server), w);
  close = λ conn w. w;
  executable = λ w. (reply (str "/opt/dockerfuse"), w);
  read_file = λ p w. (reply (127 ∷ 69 ∷ []), w);
  TarWriter = Text;
  new_writer = [];
  write_header = λ header tw. (reply tt, tw ++ header.name);
  write = λ bytes tw. (reply tt, tw ++ (b':' ∷ bytes));
  close_writer = λ tw. tw;
}

abbrev copied : List Text
copied = (str "/tmp/dockerfuse_satellite_amd64:" ++ (127 ∷ 69 ∷ [])) ∷ []

is_opt : IsName (str "opt")
unfolding text_eq no_slash
is_opt = record { not_empty = refl; not_here = refl; not_up = refl; one_part = refl }

is_dockerfuse : IsName (str "dockerfuse")
unfolding text_eq no_slash
is_dockerfuse = record { not_empty = refl; not_here = refl; not_up = refl; one_part = refl }

web_found : (host (str "amd64")).container_inspect (str "web") [] ≡ (reply (str "sha256:1"), [])
unfolding text_eq
web_found = refl

-- The client on that host.
abbrev web : Client (satellite_rpc F linux)
web = record {
  rpc_client = some (some first_server);
  container_id = str "web";
  satellite_full_remote_path = str "/tmp/dockerfuse_satellite_amd64";
}

new_docker_fuse_client_connects_example :
    new_docker_fuse_client (host (str "amd64")) (str "web") [] ≡ (reply web, copied)
unfolding slashed
new_docker_fuse_client_connects_example =
    new_docker_fuse_client_connects (host (str "amd64")) amd64 (str "web") (str "sha256:1")
      (str "dockerfuse") (str "opt" ∷ []) (127 ∷ 69 ∷ []) (str "exec1") (some first_server)
      (str "dockerfuse_satellite_amd64") (str "dockerfuse_satellite_amd64:" ++ (127 ∷ 69 ∷ [])) []
      [] [] [] [] copied copied copied (is_opt, tt) is_dockerfuse web_found refl refl refl refl refl
      refl refl refl

riscv_found : (host (str "riscv64")).container_inspect (str "web") [] ≡ (reply (str "sha256:1"), [])
unfolding text_eq
riscv_found = refl

riscv_unsupported :
    (text_eq (str "riscv64") (str "arm64") || text_eq (str "riscv64") (str "amd64")) ≡ false
unfolding text_eq
riscv_unsupported = refl

new_docker_fuse_client_unsupported_example :
    new_docker_fuse_client (host (str "riscv64")) (str "web") [] ≡ (
      error (
          str
            "error copying docker-fuse satellite to remote container: unsupported architecture: riscv64 (use arm64 or amd64)"),
      [],
    )
new_docker_fuse_client_unsupported_example =
    new_docker_fuse_client_unsupported (host (str "riscv64")) (str "riscv64") (str "web")
      (str "sha256:1") [] [] [] riscv_found refl riscv_unsupported

abbrev connected_before : Client (satellite_rpc F linux)
connected_before = record {
  rpc_client = some none;
  container_id = str "web";
  satellite_full_remote_path = str "/tmp/dockerfuse_satellite_amd64";
}

connect_satellite-LeavesConnection_example :
    LeavesConnection (connect_satellite (host (str "amd64")) (connected_before, copied))
connect_satellite-LeavesConnection_example =
    connect_satellite-LeavesConnection (host (str "amd64")) connected_before copied

-- A daemon behind ssh, with no version chosen.
abbrev environment : Environment (List Text)
environment = record {
  Dialer = Text;
  getenv = λ name w. if text_eq name docker_host then str "ssh://box" else [];
  get_connection_helper = λ url w. (reply (record { dialer = url; host = str "http://docker" }), w);
  new_client_with_opts = λ opts w. (reply tt, w);
}

-- The way to it: the helper's options, and a negotiated version.
way_to_web : Connects (host (str "amd64")) environment (str "web") [] web copied
unfolding has_prefix text_eq slashed
way_to_web = record {
  opts =
      with_http_client (str "ssh://box")
      ∷ with_host (str "http://docker")
      ∷ with_dial_context (str "ssh://box")
      ∷ [];
  version = with_api_version_negotiation;
  w1 = [];
  w2 = [];
  for_host =
      over_ssh {helper = record { dialer = str "ssh://box"; host = str "http://docker" }} refl refl;
  for_version = negotiated;
  made = refl;
  started =
      new_docker_fuse_client_connects (host (str "amd64")) amd64 (str "web") (str "sha256:1")
        (str "dockerfuse") (str "opt" ∷ []) (127 ∷ 69 ∷ []) (str "exec1") (some first_server)
        (str "dockerfuse_satellite_amd64") (str "dockerfuse_satellite_amd64:" ++ (127 ∷ 69 ∷ [])) []
        [] [] [] [] copied copied copied (is_opt, tt) is_dockerfuse web_found refl refl refl refl
        refl refl refl refl;
}

new_client_from_env-Connects_example :
    (new_client_from_env (host (str "amd64")) environment (str "web") [] ≡ (reply web, copied))
    ↔ Connects (host (str "amd64")) environment (str "web") [] web copied
new_client_from_env-Connects_example =
    new_client_from_env-Connects (host (str "amd64")) environment (str "web") [] copied web
