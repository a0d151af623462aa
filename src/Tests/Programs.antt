-- ===== src/Tests/Programs.antt =====
-- The start of the mount at concrete inputs.
use dockerfuse.Base.{ℕ, ◌≡◌, ◌↔◌, refl, ◌<◌, ◌^◌, true, false, some, List, [], ◌∷◌, suc, arith}
use dockerfuse.Base.Int.{pos}
use dockerfuse.Base.Text.{Text, str, text_eq}
use dockerfuse.Client.Rpc.{reply, error}
use dockerfuse.Program.{Flags, Options, Machine, main, parse_id, digits_after, unsigned, atoi, next}
use dockerfuse.Program.CommandLine.{CommandLine, program}
use dockerfuse.Program.CommandLine.Laws.{short, as_arguments, program-as_arguments}
use dockerfuse.Program.Mounts.{exact_options, Detached, Mounts, main-Mounts}
use dockerfuse.Program.Ends.{ExitsWithError, main-ExitsWithError, parse_id_lem}

-- No container is found. The world counts the calls.
abbrev machine : Machine
machine = record {
  World = ℕ;
  DockerFuseClient = Unit {0};
  MountServer = Unit {0};
  reborn = λ w. (reply false, suc w);
  mkdir_all = λ p w. (reply tt, suc w);
  current = λ w. (reply (record { uid = str "1000"; gid = str "100" }), suc w);
  new_docker_fuse_client = λ id w. (error (str "No such container"), suc w);
  mount = λ m c p o w. (reply tt, suc w);
  unmount = λ s w. (reply tt, suc w);
}

abbrev flags : Flags
flags = record {
  container_id = str "web";
  mount_point = str "/mnt";
  path = str "/";
  daemonize = true;
  print_version = false;
}

main-ExitsWithError_example : ExitsWithError (main machine flags 0).0
main-ExitsWithError_example = main-ExitsWithError machine flags 0 refl

largest_parsed : parse_id (str "4294967295") ≡ some 4294967295
unfolding parse_id atoi unsigned digits_after
largest_parsed = refl

parse_id_lem_example : (atoi (str "4294967295") ≡ some (pos 4294967295)) × (4294967295 < 2 ^ 32)
parse_id_lem_example = parse_id_lem (str "4294967295") 4294967295 largest_parsed

-- Values that are empty or look like flags.
abbrev odd_line : CommandLine
odd_line = record {
  container_id = str "-web";
  mount_point = str "/mnt";
  path = [];
  daemonize = false;
  debug = true;
  jsonlog = false;
  print_version = true;
}

program-as_arguments_example :
    program machine (as_arguments short odd_line) 0
    ≡ main machine
        (record {
          container_id = str "-web";
          mount_point = str "/mnt";
          path = [];
          daemonize = false;
          print_version = true;
        })
        0
program-as_arguments_example = program-as_arguments machine short odd_line 0

-- A system whose containers are all found, and which keeps what was mounted last.
abbrev with_container : Machine
with_container = record {
  World = List Options;
  DockerFuseClient = Text;
  MountServer = Text;
  reborn = λ w. (reply false, w);
  mkdir_all = λ p w. (reply tt, w);
  current = λ w. (reply (record { uid = str "4294967295"; gid = str "100" }), w);
  new_docker_fuse_client = λ id w. (reply id, w);
  mount = λ m c p o w. (reply p, o ∷ w);
  unmount = λ s w. (reply tt, w);
}

small_parsed : atoi (str "100") ≡ some (pos 100)
unfolding atoi unsigned digits_after
small_parsed = refl

abbrev mounted : List Options
mounted = exact_options (str "web") 4294967295 100 ∷ []

-- The way to the mount of this system.
goes_on : Mounts with_container flags (str "/") [] mounted
unfolding text_eq Detached
goes_on = record {
  user = record { uid = str "4294967295"; gid = str "100" };
  uid = 4294967295;
  gid = 100;
  client = str "web";
  w1 = [];
  w2 = [];
  w3 = [];
  w4 = [];
  no_version = refl;
  container = refl;
  mount_point = refl;
  detached = refl;
  directory = refl;
  current = refl;
  uid_fits = parse_id_lem (str "4294967295") 4294967295 largest_parsed;
  gid_fits = (small_parsed, omega arith);
  connected = refl;
  mounted = refl;
}

main-Mounts_example :
    (main with_container flags [] ≡ (next (str "/"), mounted))
    ↔ Mounts with_container flags (str "/") [] mounted
main-Mounts_example = main-Mounts with_container flags (str "/") [] mounted
