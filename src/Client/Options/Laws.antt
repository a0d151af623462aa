-- ===== src/Client/Options/Laws.antt =====
-- Which Docker daemon a client talks to, by the environment.
use dockerfuse.Base.{◌≡◌, ◌≢◌, refl, ◌↔◌, Bool, true, false, List, [], ◌∷◌, ◌++◌, ap, ◌∙◌, arith}
use dockerfuse.Base.Text.{Text, str, has_prefix, text_eq}
use dockerfuse.Client.Rpc.{Rpc, Client, Reply, reply, error}
use dockerfuse.Client.Session.{Host, new_docker_fuse_client}
use dockerfuse.Client.Options.{
  Opt, with_http_client, with_host, with_dial_context, from_env, with_version,
  with_api_version_negotiation, ConnectionHelper, Environment, docker_host, docker_api_version,
  helper_opts, host_opts, version_opt, make_client, with_opts, new_client_from_env,
}

-- The options for the host, by DOCKER_HOST: those of the connection helper for ssh, and else those
-- that the Docker client reads from the environment.
pub data HostOpts {World : Type 0} (E : Environment World) (w : World)
    : List (Opt E.Dialer) → World → Type 0 where
  over_ssh :
      {helper : ConnectionHelper E.Dialer} {w1 : World}
      → has_prefix (str "ssh://") (E.getenv (str "DOCKER_HOST") w) ≡ true
      → E.get_connection_helper (E.getenv (str "DOCKER_HOST") w) w ≡ (reply helper, w1)
      → HostOpts E w
          (with_http_client helper.dialer
            ∷ with_host helper.host
            ∷ with_dial_context helper.dialer
            ∷ [])
          w1
  by_environment :
      has_prefix (str "ssh://") (E.getenv (str "DOCKER_HOST") w) ≡ false
      → HostOpts E w (from_env ∷ []) w

-- The option for a value of DOCKER_API_VERSION: the version, or a negotiation where there is none.
pub data VersionOpt {Dialer : Type 0} : Text → Opt Dialer → Type 0 where
  negotiated : VersionOpt [] with_api_version_negotiation
  given : {version : Text} → version ≢ [] → VersionOpt version (with_version version)

-- The way to a client: a Docker client is made with the options for the host and, after them, the
-- option for the version, and the satellite is started over it.
pub record Connects {R : Rpc} (H : Host R) (E : Environment H.World) (id : Text) (w : H.World)
    (c : Client R) (w' : H.World) : Type 0 where
  pub opts : List (Opt E.Dialer)
  pub version : Opt E.Dialer
  pub w1 : H.World
  pub w2 : H.World
  pub for_host : HostOpts E w opts w1
  pub for_version : VersionOpt (E.getenv (str "DOCKER_API_VERSION") w1) version
  pub made : E.new_client_with_opts (opts ++ (version ∷ [])) w1 ≡ (reply tt, w2)
  pub started : new_docker_fuse_client H id w2 ≡ (reply c, w')

module _ {R : Rpc} (H : Host R) (E : Environment H.World) where
  version_opt-VersionOpt : (version : Text) → VersionOpt version (version_opt H E version)
  unfolding text_eq
  version_opt-VersionOpt [] = negotiated
  version_opt-VersionOpt (x ∷ version) = given (λ e. cc)

  VersionOpt-version_opt :
      (version : Text) (o : Opt E.Dialer) → VersionOpt version o → version_opt H E version ≡ o
  unfolding text_eq
  VersionOpt-version_opt [] _ negotiated = refl
  VersionOpt-version_opt [] _ (given h) = absurd (h refl)
  VersionOpt-version_opt (x ∷ version) _ (given h) = refl

  -- What options that are found are.
  Found : H.World → Reply (List (Opt E.Dialer)) × H.World → Type 0
  Found w (reply opts, w1) = HostOpts E w opts w1
  Found w (error t, w1) = Unit

  host_opts-Found : (w : H.World) → Found w (host_opts H E w)
  unfolding host_opts Found
  host_opts-Found w = by_scheme (has_prefix (str "ssh://") url) refl
    where
      url : Text
      url = E.getenv docker_host w

      by_helper :
          (r : Reply (ConnectionHelper E.Dialer) × H.World)
          → has_prefix (str "ssh://") url ≡ true
          → E.get_connection_helper url w ≡ r
          → Found w (
            elim r.0 as (λ _. Reply (List (Opt E.Dialer))) [
              | reply helper ↦ reply (helper_opts H E helper)
              | error t ↦ error t
            ],
            r.1,
          )
      by_helper (reply helper, w2) ssh found = over_ssh ssh found
      by_helper (error t, w2) ssh found = tt

      by_scheme : (b : Bool) → has_prefix (str "ssh://") url ≡ b → Found w (host_opts H E w)
      by_scheme true ssh = rw ssh (by_helper (E.get_connection_helper url w) ssh refl)
      by_scheme false other = rw other (by_environment other)

  HostOpts-host_opts :
      (w w1 : H.World) (opts : List (Opt E.Dialer))
      → HostOpts E w opts w1
      → host_opts H E w ≡ (reply opts, w1)
  unfolding host_opts
  HostOpts-host_opts w _ _ (over_ssh ssh e) = ground arith
  HostOpts-host_opts w _ _ (by_environment other) = ground arith

  make_client-done :
      (id : Text) (opts : List (Opt E.Dialer)) (w w' : H.World)
      → E.new_client_with_opts (opts ++ (version_opt H E (E.getenv docker_api_version w) ∷ [])) w
        ≡ (reply tt, w')
      → make_client H E id opts w ≡ new_docker_fuse_client H id w'
  unfolding make_client
  make_client-done id opts w w' e = ground arith

  -- A client comes from a Docker client that was made.
  make_client-inv :
      (id : Text) (opts : List (Opt E.Dialer)) (w w' : H.World) (c : Client R)
      → make_client H E id opts w ≡ (reply c, w')
      → (w2 : H.World) × (E.new_client_with_opts
            (opts ++ (version_opt H E (E.getenv docker_api_version w) ∷ []))
            w
          ≡ (reply tt, w2))
        × (new_docker_fuse_client H id w2 ≡ (reply c, w'))
  unfolding make_client
  make_client-inv id opts w w' c e =
      by_answer
        (E.new_client_with_opts (opts ++ (version_opt H E (E.getenv docker_api_version w) ∷ [])) w)
        refl
    where
      made : Reply (Unit {0}) × H.World
      made =
          E.new_client_with_opts (opts ++ (version_opt H E (E.getenv docker_api_version w) ∷ [])) w

      by_answer :
          (r : Reply (Unit {0}) × H.World)
          → made ≡ r
          → (w2 : H.World) × (made ≡ (reply tt, w2))
            × (new_docker_fuse_client H id w2 ≡ (reply c, w'))
      by_answer (reply tt, w2) h = (w2, h, ground arith)
      by_answer (error t, w2) h = ground arith

  module _ (id : Text) (w w' : H.World) (c : Client R) where
    from_Connects : Connects H E id w c w' → new_client_from_env H E id w ≡ (reply c, w')
    unfolding new_client_from_env with_opts
    from_Connects h =
        ap (with_opts H E id) (HostOpts-host_opts w h.w1 h.opts h.for_host)
        ∙ make_client-done id h.opts h.w1 h.w2
            (rw (VersionOpt-version_opt _ _ h.for_version) h.made)
        ∙ h.started

    to_Connects : new_client_from_env H E id w ≡ (reply c, w') → Connects H E id w c w'
    unfolding new_client_from_env with_opts Found
    to_Connects e = by_opts (host_opts H E w) (host_opts-Found w) e
      where
        by_opts :
            (r : Reply (List (Opt E.Dialer)) × H.World)
            → Found w r
            → with_opts H E id r ≡ (reply c, w')
            → Connects H E id w c w'
        by_opts (error t, w1) found h = ground arith
        by_opts (reply opts, w1) found h =
            let (w2, made, started) = make_client-inv id opts w1 w' c h in
            record {
              opts = opts;
              version = version_opt H E (E.getenv docker_api_version w1);
              w1 = w1;
              w2 = w2;
              for_host = found;
              for_version = version_opt-VersionOpt _;
              made = made;
              started = started;
            }

    -- NewDockerFuseClient returns a client exactly if a Docker client can be made with the options
    -- for the host and after them the option for the version, and the satellite can be started over
    -- it: for a DOCKER_HOST that begins with ssh:// the options are the HTTP client, host and
    -- dialer of the connection helper, which must succeed, for any other they are FromEnv, and the
    -- version is that of DOCKER_API_VERSION, or negotiated where that is empty.
    pub new_client_from_env-Connects :
        (new_client_from_env H E id w ≡ (reply c, w')) ↔ Connects H E id w c w'
    new_client_from_env-Connects = (to_Connects, from_Connects)
