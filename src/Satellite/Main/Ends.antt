-- ===== src/Satellite/Main/Ends.antt =====
-- The whole course of the satellite's main, from its flags to its end.
use dockerfuse.Base.{◌≡◌, Bool, true, false, Option, none, some, [], ◌++◌}
use dockerfuse.Base.Text.{Text, str}
use dockerfuse.Satellite.FileSystem.{FileSystem, done, raise}
use dockerfuse.Satellite.Server.{Server, close_all_fds}
use dockerfuse.Satellite.Main.{Flags, Process, Ending, exits, returns}

module _ {F : FileSystem} (P : Process F) where
  -- The log that main goes on with: none, or /tmp/log.txt, opened to append with O_RDWR, O_CREATE
  -- and O_APPEND of Linux and the mode 0640.
  pub data Logs (w : F.World) : Bool → Option P.LogFile → F.World → Type 0 where
    silent : Logs w false none w
    to_file :
        {f : P.LogFile} {w1 : F.World}
        → P.open_log (str "/tmp/log.txt") 1090 416 w ≡ (done f, w1)
        → Logs w true (some f) (P.log_to f w1)

  -- The file server after it has served from an empty table until the client has hung up, and after
  -- standard input and then standard output are closed.
  abbrev pub after_serving : F.World → Server F
  after_serving w =
      let s : Server F = P.serve_conn (record { fds = []; world = w }) in
      record { fds = s.fds; world = (P.close_stdout (P.close_stdin s.world).1).1 }

  -- The log is closed if main returns, but not if the process is ended by `shutdown`.
  pub data Over (s : Server F) : Option P.LogFile → Ending F → Type 0 where
    returned : P.woken s ≡ none → Over s none (returns s)
    returned_with_log :
        {f : P.LogFile}
        → P.woken s ≡ none
        → Over s (some f) (returns (record { fds = s.fds; world = (P.close_log f s.world).1 }))
    shut_down :
        {log : Option P.LogFile} {order : _}
        → P.woken s ≡ some order
        → Over s log (exits 0 (close_all_fds F order s).world)

  -- What becomes of main: which exits, and which way to the end goes through ServeConn.
  pub data Ends (version git_commit : Text) (flags : Flags) (w : F.World) (e : Ending F)
      : Type 0 where
    prints :
        flags.print_version ≡ true
        → e
          ≡ exits 0 (
              P.print
                (str "DockerFuse Satellite\nVersion: "
                  ++ (version ++ (str "\nGit commmit: " ++ (git_commit ++ str "\n"))))
                w)
        → Ends version git_commit flags w e
    log_fails :
        (err : _) (w1 : F.World)
        → flags.print_version ≡ false
        → flags.persistent_log ≡ true
        → P.open_log (str "/tmp/log.txt") 1090 416 w ≡ (raise err, w1)
        → e ≡ exits 1 w1
        → Ends version git_commit flags w e
    register_fails :
        (log : Option P.LogFile) (err : _) (w1 w2 : F.World)
        → flags.print_version ≡ false
        → Logs w flags.persistent_log log w1
        → P.register w1 ≡ (raise err, w2)
        → e ≡ exits 1 w2
        → Ends version git_commit flags w e
    serves :
        (log : Option P.LogFile) (w1 w2 : F.World)
        → flags.print_version ≡ false
        → Logs w flags.persistent_log log w1
        → P.register w1 ≡ (done tt, w2)
        → Over (after_serving w2) log e
        → Ends version git_commit flags w e

  module _ (version git_commit : Text) (w : F.World) (wants_log : Bool) where
    abbrev flags : Flags
    flags = record { persistent_log = wants_log; print_version = false }
