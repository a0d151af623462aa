-- ===== src/Program.antt =====
-- cmd/dockerfuse/main.go: the start of the mount as a chain of checks, each with its exit code. The
-- calls of the system, of go-daemon, of the client's constructor and of fs.Mount are a parameter.
pub mod CommandLine
pub mod Ends
pub mod Mounts
pub mod Steps
use dockerfuse.Base.{
  ℕ, zero, suc, ◌+◌, ◌*◌, ◌-◌, ◌^◌, Bool, true, false, ◌&&◌, ◌||◌, Option, none, some, List, [],
  ◌∷◌, ◌++◌, ◌%◌, ltb, leb, ◌==◌, if◌then◌else◌,
}
use dockerfuse.Base.Int.{ℤ, pos, negsuc}
use dockerfuse.Base.Text.{Text, str, text_eq}
use dockerfuse.Client.Rpc.{Reply, reply, error}

-- The exit codes.
abbrev pub error_none : ℕ
error_none = 0

abbrev pub error_args : ℕ
error_args = 1

abbrev pub error_daemon : ℕ
error_daemon = 2

abbrev pub error_create_mount : ℕ
error_create_mount = 3

abbrev pub error_get_user : ℕ
error_get_user = 4

abbrev pub error_invalid_uid_gid : ℕ
error_invalid_uid_gid = 5

abbrev pub error_init_docker_client : ℕ
error_init_docker_client = 6

abbrev pub error_mount_unmount : ℕ
error_mount_unmount = 7

-- The command line. Logging is left out.
pub record Flags : Type 0 where
  pub container_id : Text
  pub mount_point : Text
  pub path : Text
  pub daemonize : Bool
  pub print_version : Bool

-- user.User, as far as it is read.
pub record User : Type 0 where
  pub uid : Text
  pub gid : Text

-- The time-outs in milliseconds.
abbrev pub attr_ttl : ℕ
attr_ttl = 1500

abbrev pub entry_ttl : ℕ
entry_ttl = 1500

-- fs.Options, as far as main sets them. The ids are 32 bits wide.
pub record Options : Type 0 where
  pub entry_timeout : ℕ
  pub attr_timeout : ℕ
  pub negative_timeout : ℕ
  pub fs_name : Text
  pub uid : ℕ
  pub gid : ℕ

abbrev pub mount_options : Text → ℕ → ℕ → Options
mount_options container_id uid gid = record {
  entry_timeout = entry_ttl;
  attr_timeout = attr_ttl;
  negative_timeout = entry_ttl;
  fs_name = str "dockerfuse-" ++ container_id;
  uid = uid % 2 ^ 32;
  gid = gid % 2 ^ 32;
}

pub record Machine : Type 1 where
  pub World : Type 0
  pub DockerFuseClient : Type 0
  pub MountServer : Type 0
  -- whether there is a child, so that this process is the parent
  pub reborn : World → Reply Bool × World
  pub mkdir_all : Text → World → Reply (Unit {0}) × World
  pub current : World → Reply User × World
  pub new_docker_fuse_client : Text → World → Reply DockerFuseClient × World
  -- the mount point, the client and the path of the root node, and the options
  pub mount : Text → DockerFuseClient → Text → Options → World → Reply MountServer × World
  pub unmount : MountServer → World → Reply (Unit {0}) × World

-- A digit's value.
abbrev pub digit : ℕ → Option ℕ
digit c = if leb b'0' c && leb c b'9' then some (c - b'0') else none

-- The value of a text of digits, after `n`.
unfoldable pub digits_after : ℕ → Text → Option ℕ
digits_after n [] = some n
digits_after n (c ∷ s) = elim (digit c) [ none ↦ none | some d ↦ digits_after (n * 10 + d) s ]

unfoldable pub unsigned : Text → Option ℕ
unsigned [] = none
unsigned (c ∷ s) = digits_after 0 (c ∷ s)

abbrev pub positive_int : Option ℕ → Option ℤ
positive_int none = none
positive_int (some n) = if ltb n (2 ^ 63) then some (pos n) else none

abbrev pub negative_int : Option ℕ → Option ℤ
negative_int none = none
negative_int (some zero) = some (pos 0)
negative_int (some (suc n)) = if ltb n (2 ^ 63) then some (negsuc n) else none

-- strconv.Atoi: an optional sign and digits, in an int64.
unfoldable pub atoi : Text → Option ℤ
atoi [] = none
atoi (c ∷ s) =
    if c == b'-'
    then negative_int (unsigned s)
    else (if c == b'+' then positive_int (unsigned s) else positive_int (unsigned (c ∷ s)))

-- An id of the user: `none` is an exit.
abbrev pub id_in_range : Option ℤ → Option ℕ
id_in_range none = none
id_in_range (some (negsuc n)) = none
id_in_range (some (pos n)) = if ltb 4294967295 n then none else some n

unfoldable pub parse_id : Text → Option ℕ
parse_id t = id_in_range (atoi t)

-- How main goes on, or ends: os.Exit, or a return of the parent process.
pub data Step (A : Type 0) : Type 0 where
  next : A → Step A
  exit : ℕ → Step A
  parent_returns : Step A

module _ (M : Machine) where
  abbrev pub Main : Type 0 → Type 0
  Main A = M.World → Step A × M.World

  infixl 5 ◌>>=◌
  unfoldable pub ◌>>=◌ : {A B : Type 0} → Main A → (A → Main B) → Main B
  ◌>>=◌ m f w =
      let (r, w') = m w in
      elim r [ next a ↦ f a w' | exit n ↦ (exit n, w') | parent_returns ↦ (parent_returns, w') ]

  infixl 5 ◌>>◌
  unfoldable pub ◌>>◌ : {A B : Type 0} → Main A → Main B → Main B
  unfolding ◌>>=◌
  m >> k = m >>= λ _. k

  -- if cond { os.Exit(code) }
  unfoldable pub exit_if : Bool → ℕ → Main (Unit {0})
  exit_if cond code w = (if cond then exit code else next tt, w)

  -- if err != nil { os.Exit(code) }
  unfoldable pub or_exit : {A : Type 0} → ℕ → (M.World → Reply A × M.World) → Main A
  or_exit code call w =
      let (r, w') = call w in (elim r [ reply a ↦ next a | error t ↦ exit code ], w')

  unfoldable pub some_or_exit : {A : Type 0} → ℕ → Option A → Main A
  some_or_exit code o w = (elim o [ none ↦ exit code | some a ↦ next a ], w)

  abbrev pub return_if : Bool → Main (Unit {0})
  return_if child w = (if child then parent_returns else next tt, w)

  unfoldable pub detach : Bool → Main (Unit {0})
  detach false w = (next tt, w)
  detach true w = (or_exit error_daemon M.reborn >>= return_if) w

  -- main up to server.Wait, with the flags parsed.
  unfoldable pub main : Flags → Main M.MountServer
  main flags = do
    exit_if flags.print_version error_none
    exit_if (text_eq flags.container_id []) error_args
    exit_if (text_eq flags.mount_point []) error_args
    detach flags.daemonize
    or_exit error_create_mount (M.mkdir_all flags.mount_point)
    user ← or_exit error_get_user M.current
    uid ← some_or_exit error_invalid_uid_gid (parse_id user.uid)
    gid ← some_or_exit error_invalid_uid_gid (parse_id user.gid)
    client ← or_exit error_init_docker_client (M.new_docker_fuse_client flags.container_id)
    or_exit error_mount_unmount
        (M.mount flags.mount_point client flags.path (mount_options flags.container_id uid gid))

  -- The signal handler, once a signal has come.
  unfoldable pub shutdown : M.MountServer → M.World → ℕ × M.World
  shutdown server w =
      let (r, w') = M.unmount server w in
      (elim r [ reply a ↦ error_none | error t ↦ error_mount_unmount ], w')
