-- ===== src/Client/Options.antt =====
-- cmd/dockerfuse/client/client.go, NewDockerFuseClient: the options of the Docker client, which come from
-- the environment. The calls of package os, of the connection helper and of the Docker client's
-- constructor are a parameter.
pub mod Laws
use dockerfuse.Base.{Bool, List, [], ◌∷◌, ◌++◌, if◌then◌else◌}
use dockerfuse.Base.Text.{Text, str, has_prefix, text_eq}
use dockerfuse.Client.Rpc.{Rpc, Reply, reply, error, Client}
use dockerfuse.Client.Session.{Host, new_docker_fuse_client}

-- client.Opt, by the functions of the Docker client that make one.
pub data Opt (Dialer : Type 0) : Type 0 where
  with_http_client : Dialer → Opt Dialer
  with_host : Text → Opt Dialer
  with_dial_context : Dialer → Opt Dialer
  from_env : Opt Dialer
  with_version : Text → Opt Dialer
  with_api_version_negotiation : Opt Dialer

-- connhelper.ConnectionHelper
pub record ConnectionHelper (Dialer : Type 0) : Type 0 where
  pub dialer : Dialer
  pub host : Text

pub record Environment (World : Type 0) : Type 1 where
  pub Dialer : Type 0
  -- an unset variable is the empty text
  pub getenv : Text → World → Text
  pub get_connection_helper : Text → World → Reply (ConnectionHelper Dialer) × World
  -- the client that it makes is the one that Host calls
  pub new_client_with_opts : List (Opt Dialer) → World → Reply (Unit {0}) × World

abbrev pub docker_host : Text
docker_host = str "DOCKER_HOST"

abbrev pub docker_api_version : Text
docker_api_version = str "DOCKER_API_VERSION"

module _ {R : Rpc} (H : Host R) (E : Environment H.World) where
  abbrev pub helper_opts : ConnectionHelper E.Dialer → List (Opt E.Dialer)
  helper_opts helper =
      with_http_client helper.dialer ∷ with_host helper.host ∷ with_dial_context helper.dialer ∷ []

  -- The options for the host.
  unfoldable pub host_opts : H.World → Reply (List (Opt E.Dialer)) × H.World
  host_opts w =
      if has_prefix (str "ssh://") (E.getenv docker_host w)
      then (let (r, w') = E.get_connection_helper (E.getenv docker_host w) w in
          (elim r [ reply helper ↦ reply (helper_opts helper) | error t ↦ error t ], w'))
      else (reply (from_env ∷ []), w)

  abbrev pub version_opt : Text → Opt E.Dialer
  version_opt version =
      if text_eq version [] then with_api_version_negotiation else with_version version

  -- The Docker client is made, and the satellite started.
  unfoldable pub make_client : Text → List (Opt E.Dialer) → H.World → Reply (Client R) × H.World
  make_client container_id opts w =
      let (r, w') =
        E.new_client_with_opts (opts ++ (version_opt (E.getenv docker_api_version w) ∷ [])) w in
      elim r [ error t ↦ (error t, w') | reply _ ↦ new_docker_fuse_client H container_id w' ]

  unfoldable pub with_opts :
      Text → Reply (List (Opt E.Dialer)) × H.World → Reply (Client R) × H.World
  with_opts container_id (error t, w) = (error t, w)
  with_opts container_id (reply opts, w) = make_client container_id opts w

  -- NewDockerFuseClient as a whole.
  unfoldable pub new_client_from_env : Text → H.World → Reply (Client R) × H.World
  new_client_from_env container_id w = with_opts container_id (host_opts w)
