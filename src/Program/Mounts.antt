-- ===== src/Program/Mounts.antt =====
-- What main mounts when every step before the mount succeeds.
use dockerfuse.Base.{Bool, true, ℕ, ◌≡◌, sym, ◌∙◌, ◌↔◌, ◌<◌, ◌^◌, ◌%◌, false, some, [], ◌++◌, arith}
use dockerfuse.Base.Int.{pos}
use dockerfuse.Base.Text.{Text, str, text_eq}
use dockerfuse.Client.Rpc.{reply}
use dockerfuse.Program.Steps.{
  >>-next, >>=-next, exit_if-next, or_exit-next, some_or_exit-next, >>-next_inv, exit_if->>_inv,
  some_or_exit->>=_inv, or_exit->>=_inv, or_exit-next_inv,
}
use dockerfuse.Program.Ends.{parse_id_lem}
use dockerfuse.Program.{
  Flags, User, Options, Machine, next, detach, main, or_exit, return_if, ◌>>=◌, parse_id, atoi,
  mount_options,
}

parse_id-atoi : (t : Text) (n : ℕ) → atoi t ≡ some (pos n) → n < 2 ^ 32 → parse_id t ≡ some n
unfolding parse_id
parse_id-atoi t n e h = ground arith

-- The options with the ids as they are, not as 32 bits of them.
abbrev pub exact_options : Text → ℕ → ℕ → Options
exact_options container_id uid gid = record {
  entry_timeout = 1500;
  attr_timeout = 1500;
  negative_timeout = 1500;
  fs_name = str "dockerfuse-" ++ container_id;
  uid = uid;
  gid = gid;
}

mod_small : (n : ℕ) → n < 2 ^ 32 → n % 2 ^ 32 ≡ n
mod_small n h = omega arith

mount_options-exact :
    (t : Text) (uid gid : ℕ)
    → uid < 2 ^ 32
    → gid < 2 ^ 32
    → mount_options t uid gid ≡ exact_options t uid gid
mount_options-exact t uid gid h k = rw (mod_small uid h) (rw (mod_small gid k))

-- The process that goes on: without -daemonize the one that was started, and else the child, to which
-- Reborn reports that there is no child.
unfoldable pub Detached : (M : Machine) → Bool → M.World → M.World → Type 0
Detached M false w w1 = w1 ≡ w
Detached M true w w1 = M.reborn w ≡ (reply false, w1)

-- The checks before the mount: the flags that must be given, and the answers of the calls.
pub record Mounts (M : Machine) (flags : Flags) (server : M.MountServer) (w w' : M.World)
    : Type 0 where
  pub user : User
  pub uid : ℕ
  pub gid : ℕ
  pub client : M.DockerFuseClient
  pub w1 : M.World
  pub w2 : M.World
  pub w3 : M.World
  pub w4 : M.World
  pub no_version : flags.print_version ≡ false
  pub container : text_eq flags.container_id [] ≡ false
  pub mount_point : text_eq flags.mount_point [] ≡ false
  pub detached : Detached M flags.daemonize w w1
  pub directory : M.mkdir_all flags.mount_point w1 ≡ (reply tt, w2)
  pub current : M.current w2 ≡ (reply user, w3)
  pub uid_fits : (atoi user.uid ≡ some (pos uid)) × (uid < 2 ^ 32)
  pub gid_fits : (atoi user.gid ≡ some (pos gid)) × (gid < 2 ^ 32)
  pub connected : M.new_docker_fuse_client flags.container_id w3 ≡ (reply client, w4)
  pub mounted :
      M.mount flags.mount_point client flags.path (exact_options flags.container_id uid gid) w4
      ≡ (reply server, w')

module _ (M : Machine) where
  Detached-detach :
      (daemonize : Bool) (w w1 : M.World)
      → Detached M daemonize w w1
      → detach M daemonize w ≡ (next tt, w1)
  unfolding detach Detached or_exit ◌>>=◌
  Detached-detach false w w1 h = rw h
  Detached-detach true w w1 h = ground arith

  detach-Detached :
      (daemonize : Bool) (w w1 : M.World)
      → detach M daemonize w ≡ (next tt, w1)
      → Detached M daemonize w w1
  unfolding detach Detached
  detach-Detached false w w1 e = ground arith
  detach-Detached true w w1 e =
      let (child, w2, born, e') = or_exit->>=_inv M 2 M.reborn (return_if M) w w1 tt e in
      by_child child w2 born e'
    where
      by_child :
          (child : Bool) (w2 : M.World)
          → M.reborn w ≡ (reply child, w2)
          → return_if M child w2 ≡ (next tt, w1)
          → M.reborn w ≡ (reply false, w1)
      by_child true w2 born e' = ground arith
      by_child false w2 born e' = ground arith

  mounts :
      (flags : Flags) (server : M.MountServer) (w w' : M.World)
      → Mounts M flags server w w'
      → main M flags w ≡ (next server, w')
  unfolding main
  mounts flags server w w' h =
      let (hu, ku) = h.uid_fits in
      let (hg, kg) = h.gid_fits in
      >>-next M _ _ w w tt (exit_if-next M _ 0 w h.no_version)
      ∙ >>-next M _ _ w w tt (exit_if-next M _ 1 w h.container)
      ∙ >>-next M _ _ w w tt (exit_if-next M _ 1 w h.mount_point)
      ∙ >>-next M _ _ w h.w1 tt (Detached-detach flags.daemonize w h.w1 h.detached)
      ∙ >>-next M _ _ h.w1 h.w2 tt (or_exit-next M 3 _ h.w1 h.w2 tt h.directory)
      ∙ >>=-next M _ _ h.w2 h.w3 h.user (or_exit-next M 4 _ h.w2 h.w3 h.user h.current)
      ∙ >>=-next M _ _ h.w3 h.w3 h.uid
          (some_or_exit-next M 5 _ h.w3 h.uid (parse_id-atoi h.user.uid h.uid hu ku))
      ∙ >>=-next M _ _ h.w3 h.w3 h.gid
          (some_or_exit-next M 5 _ h.w3 h.gid (parse_id-atoi h.user.gid h.gid hg kg))
      ∙ >>=-next M _ _ h.w3 h.w4 h.client (or_exit-next M 6 _ h.w3 h.w4 h.client h.connected)
      ∙ or_exit-next M 7 _ h.w4 w' server
          (rw (mount_options-exact flags.container_id h.uid h.gid ku kg) h.mounted)

  mounted_by :
      (flags : Flags) (server : M.MountServer) (w w' : M.World)
      → main M flags w ≡ (next server, w')
      → Mounts M flags server w w'
  unfolding main
  mounted_by flags server w w' e =
      let (version, e1) = exit_if->>_inv M _ 0 _ w w' server e in
      let (container, e2) = exit_if->>_inv M _ 1 _ w w' server e1 in
      let (mount_point, e3) = exit_if->>_inv M _ 1 _ w w' server e2 in
      let (_, w1, detached, e4) = >>-next_inv M _ _ w w' server e3 in
      let (_, w2, directory, e5) = >>-next_inv M _ _ w1 w' server e4 in
      let (user, w3, current, e6) = or_exit->>=_inv M 4 _ _ w2 w' server e5 in
      let (uid, parsed_uid, e7) = some_or_exit->>=_inv M 5 _ _ w3 w' server e6 in
      let (gid, parsed_gid, e8) = some_or_exit->>=_inv M 5 _ _ w3 w' server e7 in
      let (client, w4, connected, e9) = or_exit->>=_inv M 6 _ _ w3 w' server e8 in
      let uid_fits = parse_id_lem user.uid uid parsed_uid in
      let gid_fits = parse_id_lem user.gid gid parsed_gid in
      record {
        user = user;
        uid = uid;
        gid = gid;
        client = client;
        w1 = w1;
        w2 = w2;
        w3 = w3;
        w4 = w4;
        no_version = version;
        container = container;
        mount_point = mount_point;
        detached = detach-Detached flags.daemonize w w1 detached;
        directory = or_exit-next_inv M 3 _ w1 w2 tt directory;
        current = current;
        uid_fits = uid_fits;
        gid_fits = gid_fits;
        connected = connected;
        mounted =
            rw (sym (mount_options-exact flags.container_id uid gid uid_fits.1 gid_fits.1))
              (or_exit-next_inv M 7 _ w4 w' server e9);
      }

  -- Main gets to the wait for the server exactly if no version is asked for, a container and a
  -- mount point are given, the process is the child where it daemonizes, the user's uid and gid are
  -- whole numbers below 2 ^ 32, and each call of the system, of the client's constructor and of
  -- fs.Mount, in the order of the source, succeeds, where fs.Mount gets the flags' mount point and
  -- path, the client of the flags' container, exactly the user's uid and gid, and time-outs of 1500
  -- milliseconds.
  pub main-Mounts :
      (flags : Flags) (server : M.MountServer) (w w' : M.World)
      → (main M flags w ≡ (next server, w')) ↔ Mounts M flags server w w'
  main-Mounts flags server w w' = (mounted_by flags server w w', mounts flags server w w')
