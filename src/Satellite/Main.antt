-- ===== src/Satellite/Main.antt =====
-- cmd/satellite/main.go: the process around the file server. The calls of packages os and net/rpc that
-- it makes are a parameter.
pub mod Laws
pub mod Ends
use dockerfuse.Base.{ℕ, Bool, true, false, Option, none, some, ◌++◌, if◌then◌else◌, bit_or}
use dockerfuse.Base.Text.{Text, str}
use dockerfuse.Satellite.FileSystem.{FileSystem, Try, done, raise}
use dockerfuse.Satellite.Table.{Table}
use dockerfuse.Satellite.Server.{Server, new_docker_fuse_fs_ops, close_all_fds}

-- The command line.
pub record Flags : Type 0 where
  pub persistent_log : Bool
  pub print_version : Bool

-- What main asks of the process that it runs in.
pub record Process (F : FileSystem) : Type 1 where
  pub LogFile : Type 0
  pub print : Text → F.World → F.World
  -- os.OpenFile of a path with flags and a mode
  pub open_log : Text → ℕ → ℕ → F.World → Try LogFile × F.World
  pub close_log : LogFile → F.World → Try (Unit {0}) × F.World
  -- os.Stderr and the output of package log
  pub log_to : LogFile → F.World → F.World
  -- rpc.Server.Register of the handlers
  pub register : F.World → Try (Unit {0}) × F.World
  -- ServeConn, which returns when the client hangs up
  pub serve_conn : Server F → Server F
  -- the Close of os.Stdin and of os.Stdout
  pub close_stdin : F.World → Try (Unit {0}) × F.World
  pub close_stdout : F.World → Try (Unit {0}) × F.World
  -- The close of the signal channel at the end of main wakes the goroutine of `shutdown`: the order in
  -- which that ranges over the table if it comes to its os.Exit before main returns, or `none` if main
  -- returns first. The Go scheduler decides.
  pub woken : Server F → Option (Table F.File)

abbrev pub log_path : Text
log_path = str "/tmp/log.txt"

-- O_RDWR | O_CREATE | O_APPEND of Linux
abbrev pub log_flags : ℕ
log_flags = bit_or 2 (bit_or 64 1024)

-- 0640
abbrev pub log_mode : ℕ
log_mode = 416

abbrev pub version_text : Text → Text → Text
version_text version git_commit =
    str "DockerFuse Satellite\nVersion: "
    ++ (version ++ (str "\nGit commmit: " ++ (git_commit ++ str "\n")))

-- How the process ends: an exit code, or the end of main with the handlers' last state.
pub data Ending (F : FileSystem) : Type 0 where
  exits : ℕ → F.World → Ending F
  returns : Server F → Ending F

-- The goroutine of `shutdown`, once a signal has come or the channel is closed: it ends the process
-- wherever main is. Its loop over the table is one step.
unfoldable pub shutdown : {F : FileSystem} → Table F.File → Server F → Ending F
shutdown {F} order s = let s' : Server F = close_all_fds F order s in exits 0 s'.world

-- The error that RWCloser.Close returns: the writer's, or else the reader's.
abbrev pub either_error : Try (Unit {0}) → Try (Unit {0}) → Try (Unit {0})
either_error read_error (raise e) = raise e
either_error read_error (done _) = read_error

-- RWCloser.Close
unfoldable pub close_both :
    {W : Type 0} → (W → Try (Unit {0}) × W) → (W → Try (Unit {0}) × W) → W → Try (Unit {0}) × W
close_both close_reader close_writer w =
    let (read_error, w1) = close_reader w in
    let (write_error, w2) = close_writer w1 in (either_error read_error write_error, w2)

module _ {F : FileSystem} (P : Process F) where
  abbrev pub on_world : (F.World → F.World) → Server F → Server F
  on_world change s = record { fds = s.fds; world = change s.world }

  -- defer f.Close()
  unfoldable pub close_log_at_end : Option P.LogFile → Ending F → Ending F
  close_log_at_end none e = e
  close_log_at_end (some f) (exits n w) = exits n w
  close_log_at_end (some f) (returns s) = returns (on_world (λ w. (P.close_log f w).1) s)

  -- defer close(osSignalChannel)
  unfoldable pub close_signal_channel : Server F → Ending F
  close_signal_channel s = elim (P.woken s) [ none ↦ returns s | some order ↦ shutdown order s ]

  -- main from NewServer on: the deferred calls run in reverse order, after ServeConn. log.Fatalf exits,
  -- and no deferred call runs.
  unfoldable pub serve : F.World → Ending F
  unfolding close_both
  serve w =
      let (registered, w1) = P.register w in
      elim registered [
        | raise e ↦ exits 1 w1
        | done _ ↦ close_signal_channel (
            on_world (λ x. (close_both P.close_stdin P.close_stdout x).1)
              (P.serve_conn (new_docker_fuse_fs_ops F w1)))
      ]

  -- The log file, if it is asked for: `none` is log.Fatalf.
  unfoldable pub start_log : Bool → F.World → Option (Option P.LogFile) × F.World
  start_log false w = (some none, w)
  start_log true w =
      let (r, w1) = P.open_log log_path log_flags log_mode w in
      elim r [ raise e ↦ (none, w1) | done f ↦ (some (some f), P.log_to f w1) ]

  -- main, with the flags parsed. Log lines are left out.
  unfoldable pub main : Text → Text → Flags → F.World → Ending F
  main version git_commit flags w =
      if flags.print_version
      then exits 0 (P.print (version_text version git_commit) w)
      else let (log, w1) = start_log flags.persistent_log w in
        elim log [ none ↦ exits 1 w1 | some f ↦ close_log_at_end f (serve w1) ]
