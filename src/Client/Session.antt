-- ===== src/Client/Session.antt =====
-- cmd/dockerfuse/client/client.go, uploadSatellite, connectSatellite, disconnect and
-- NewDockerFuseClient: how a client gets its connection. The Docker API, package os and the pipes of
-- the connection are a parameter.
pub mod Laws
pub mod Beside
pub mod Connection
pub mod Upload
pub mod StartUp
use dockerfuse.Base.{
  ℕ, Bool, ◌||◌, not, Option, none, some, List, [], ◌∷◌, ◌++◌, ◌==◌, length, if◌then◌else◌,
}
use dockerfuse.Base.Text.{Text, str, text_eq}
use dockerfuse.Client.Rpc.{Rpc, Reply, reply, error, Client}
use dockerfuse.Node.Paths.{clean, child_path}

-- tar.Header, as far as uploadSatellite sets it.
pub record TarHeader : Type 0 where
  pub name : Text
  pub mode : ℕ
  pub size : ℕ

-- The interfaces dockerClient and fileSystem of the client, the end of a connection, and the writer of
-- package archive/tar.
pub record Host (R : Rpc) : Type 1 where
  pub World : Type 0
  -- the image of a container, and the architecture of an image
  pub container_inspect : Text → World → Reply Text × World
  pub image_inspect : Text → World → Reply Text × World
  pub copy_to_container : Text → Text → List ℕ → World → Reply (Unit {0}) × World
  -- the number of the exec, and its connection
  pub container_exec_create : Text → List Text → World → Reply Text × World
  pub container_exec_attach : Text → World → Reply R.Conn × World
  pub close : R.Conn → World → World
  pub executable : World → Reply Text × World
  pub read_file : Text → World → Reply (List ℕ) × World
  -- a tar.Writer and its buffer: a new one on an empty buffer, WriteHeader and Write
  pub TarWriter : Type 0
  pub new_writer : TarWriter
  pub write_header : TarHeader → TarWriter → Reply (Unit {0}) × TarWriter
  pub write : List ℕ → TarWriter → Reply (Unit {0}) × TarWriter
  -- the bytes in the buffer after Close, whose error is not looked at
  pub close_writer : TarWriter → List ℕ

abbrev pub satellite_exec_path : Text
satellite_exec_path = str "/tmp"

-- filepath.Dir: the path up to its last slash, cleaned.
abbrev pub up_to_slash : ℕ → Text → Text
up_to_slash c [] = if c == b'/' then c ∷ [] else []
up_to_slash c (d ∷ s) = c ∷ d ∷ s

unfoldable pub through_last_slash : Text → Text
through_last_slash [] = []
through_last_slash (c ∷ s) = up_to_slash c (through_last_slash s)

unfoldable pub dir : Text → Text
dir p = clean (through_last_slash p)

abbrev pub satellite_bin_name : Text → Text
satellite_bin_name architecture = str "dockerfuse_satellite_" ++ architecture

module _ {R : Rpc} (H : Host R) where
  -- The client and the world around it; an error ends a function.
  abbrev pub Session : Type 0 → Type 0
  Session A = Client R × H.World → Reply A × (Client R × H.World)

  unfoldable pub ask : {A : Type 0} → (H.World → Reply A × H.World) → Session A
  ask call (c, w) = let (r, w') = call w in (r, (c, w'))

  abbrev pub satellite_header : Text → List ℕ → TarHeader
  satellite_header name satellite_bin = record {
    name = name;
    mode = 448;
    size = length satellite_bin;
  }

  -- The archive of one file in memory, or the error of WriteHeader or Write.
  unfoldable pub satellite_archive : Text → List ℕ → Reply (List ℕ)
  satellite_archive name satellite_bin =
      let (headed, tw) = H.write_header (satellite_header name satellite_bin) H.new_writer in
      let (written, tw') = H.write satellite_bin tw in
      elim headed [
        | error t ↦ error t
        | reply _ ↦ elim written [ error t ↦ error t | reply _ ↦ reply (H.close_writer tw') ]
      ]

  -- A result that is there already.
  unfoldable pub returning : {A : Type 0} → Reply A → Session A
  returning r s = (r, s)

  infixl 5 ◌>>=◌
  unfoldable pub ◌>>=◌ : {A B : Type 0} → Session A → (A → Session B) → Session B
  ◌>>=◌ m f s = let (r, s') = m s in elim r [ reply a ↦ f a s' | error t ↦ (error t, s') ]

  infixl 5 ◌>>◌
  unfoldable pub ◌>>◌ : {A B : Type 0} → Session A → Session B → Session B
  unfolding ◌>>=◌
  m >> k = m >>= λ _. k

  unfoldable pub disconnect : Session (Unit {0})
  disconnect (c, w) = elim c.rpc_client [
    | none ↦ (reply tt, (c, w))
    | some conn ↦ (reply tt, (record c { rpc_client = none }, H.close conn w))
  ]

  unfoldable pub check_architecture : Text → Session (Unit {0})
  check_architecture architecture s =
      if text_eq architecture (str "arm64") || text_eq architecture (str "amd64")
      then (reply tt, s)
      else (
        error (str "unsupported architecture: " ++ (architecture ++ str " (use arm64 or amd64)")),
        s,
      )

  unfoldable pub set_remote_path : Text → Session (Unit {0})
  set_remote_path p (c, w) = (reply tt, (record c { satellite_full_remote_path = p }, w))

  -- The fields of the client at that moment.
  unfoldable pub with_client : {A : Type 0} → (Client R → Session A) → Session A
  with_client f s = f s.0 s

  unfoldable pub upload_satellite : Session (Unit {0})
  upload_satellite = with_client λ c. do
    image ← ask (H.container_inspect c.container_id)
    architecture ← ask (H.image_inspect image)
    check_architecture architecture
    set_remote_path (child_path satellite_exec_path (satellite_bin_name architecture))
    ex ← ask H.executable
    satellite_bin ← ask (H.read_file (child_path (dir ex) (satellite_bin_name architecture)))
    archive ← returning (satellite_archive (satellite_bin_name architecture) satellite_bin)
    ask (H.copy_to_container c.container_id satellite_exec_path archive)

  unfoldable pub set_rpc_client : R.Conn → Session (Unit {0})
  set_rpc_client conn (c, w) = (reply tt, (record c { rpc_client = some conn }, w))

  -- A client that is connected is disconnected first.
  unfoldable pub connect_satellite : Session (Unit {0})
  connect_satellite = do
    disconnect
    exec_id ←
        with_client
          λ c. ask (H.container_exec_create c.container_id (c.satellite_full_remote_path ∷ []))
    conn ← ask (H.container_exec_attach exec_id)
    set_rpc_client conn

  -- fmt.Errorf("…: %s", err)
  abbrev pub wrap : Text → Reply (Unit {0}) → Reply (Unit {0})
  wrap context (reply a) = reply a
  wrap context (error t) = error (context ++ t)

  unfoldable pub wrapping : Text → Session (Unit {0}) → Session (Unit {0})
  wrapping context m s = let (r, s') = m s in (wrap context r, s')

  abbrev pub unconnected : Text → Client R
  unconnected container_id = record {
    rpc_client = none;
    container_id = container_id;
    satellite_full_remote_path = [];
  }

  unfoldable pub start_up : Session (Unit {0})
  start_up =
      wrapping (str "error copying docker-fuse satellite to remote container: ") upload_satellite
      >> wrapping (str "error connecting to docker-fuse satellite: ") connect_satellite

  abbrev pub returned : Reply (Unit {0}) × (Client R × H.World) → Reply (Client R) × H.World
  returned (reply a, (c, w)) = (reply c, w)
  returned (error t, (c, w)) = (error t, w)

  -- NewDockerFuseClient, once the Docker client is made: the client, or the error.
  unfoldable pub new_docker_fuse_client : Text → H.World → Reply (Client R) × H.World
  new_docker_fuse_client container_id w = returned (start_up (unconnected container_id, w))
