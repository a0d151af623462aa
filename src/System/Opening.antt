-- ===== src/System/Opening.antt =====
-- Opening and creating files from the client's side.
use dockerfuse.Base.{ℕ, ◌≡◌, ◌∙◌, none, some, [], arith}
use dockerfuse.Base.Text.{Text}
use dockerfuse.Os.{Os}
use dockerfuse.RpcCommon.Error.{GoError, return}
use dockerfuse.RpcCommon.Flags.{system_to_sa_flags, sa_flags_to_system}
use dockerfuse.RpcCommon.Types.{OpenRequest}
use dockerfuse.Satellite.FileSystem.{FileSystem, Stat, Try, done, raise}
use dockerfuse.Satellite.Table.{find, store, find-store}
use dockerfuse.Satellite.Server.{Server, pure, attempt, attempt_or}
use dockerfuse.Satellite.Server.Laws.{
  >>=-return, >>=-raise, attempt-done, target_of, attempt_or-target,
}
use dockerfuse.Satellite.Dispatch.{dispatch}
use dockerfuse.Satellite.Paths.{stat_reply}
use dockerfuse.Satellite.Descriptors.{describe_open}
use dockerfuse.Satellite.Opening.{open_path-done}
use dockerfuse.Client.Rpc.{Client, Outcome, remote}
use dockerfuse.Client.Calls
use dockerfuse.Client.Calls.{FileHandle, uintptr, StatAttr, stat_attr}
use dockerfuse.System.Link.{satellite_rpc, connected, call_then-return}
use dockerfuse.System.Refusals.{refused_across, survivor, number_seen}
use dockerfuse.System.Attributes.{IsPlain, SameAttributes, stat_attr-SameAttributes}

module _ (F : FileSystem) (server_os client_os : Os) (c : Client (satellite_rpc F server_os))
    (s : Server F) where
  module _ (p : Text) (flags mode : ℕ) (file : F.File) (w w1 : F.World) where
    abbrev open_request : OpenRequest
    open_request = record {
      full_path = p;
      sa_flags = system_to_sa_flags client_os flags;
      mode = mode;
    }

    -- The call of open(2) in the container, for a client's flags.
    abbrev pub Opens : Type 0
    Opens =
        F.open_file p (sa_flags_to_system server_os (system_to_sa_flags client_os flags)) mode
          s.world
        ≡ (done file, w)

    -- The satellite once the file is open and listed.
    abbrev pub listing : F.World → Server F
    listing w' = record { fds = store s.fds (F.fd file) file; world = w' }

    described :
        (sys : Stat) (r : Try Text) (w2 : F.World)
        → F.stat file w ≡ (done sys, w1)
        → F.readlink p w1 ≡ (r, w2)
        → describe_open F server_os open_request file (listing w) ≡ (
          return (record { fd = F.fd file; stat_reply = stat_reply sys (target_of r) }),
          listing w2,
        )
    unfolding describe_open pure
    described sys r w2 e l =
        >>=-return (attempt server_os (F.stat file)) _ (listing w) (listing w1) sys
          (attempt-done server_os (F.stat file) (listing w) sys w1 e)
        ∙ >>=-return (attempt_or [] (F.readlink p)) _ (listing w1) (listing w2) (target_of r)
            (attempt_or-target p (listing w1) r w2 l)

    -- If open(2) and Stat succeed, the file's number is not listed and the numbers of Stat are in
    -- range, then create and open give a handle for the container's open file, create with the
    -- attributes and open with the mode that Stat reports, and the satellite lists the file under
    -- that handle.
    pub open_across :
        (sys : Stat) (r : Try Text) (w2 : F.World)
        → Opens
        → find s.fds (F.fd file) ≡ none
        → F.stat file w ≡ (done sys, w1)
        → F.readlink p w1 ≡ (r, w2)
        → IsPlain sys
        → (a : StatAttr) × (Calls.create client_os p flags mode (connected F server_os c (some s))
            ≡ (Outcome.done (uintptr (F.fd file), a), connected F server_os c (some (listing w2))))
          × (Calls.open_path client_os p flags mode (connected F server_os c (some s)) ≡ (
            Outcome.done (uintptr (F.fd file), a.mode),
            connected F server_os c (some (listing w2)),
          ))
          × SameAttributes sys a
          × (find (listing w2).fds (F.fd file) ≡ some file)
    unfolding Calls.create Calls.open_path remote dispatch stat_attr stat_reply
    open_across sys r w2 e unused st l plain =
        let answer =
          open_path-done F server_os open_request s w file e unused ∙ described sys r w2 st l in
        (
          stat_attr (stat_reply sys (target_of r)),
          call_then-return F server_os _ _ _ c s _ _ answer,
          call_then-return F server_os _ _ _ c s _ _ answer,
          stat_attr-SameAttributes sys (target_of r) plain,
          rw find-store (ground arith),
        )

    -- If open(2) succeeds with a number that is not listed and Stat then fails, the program gets an
    -- error and no handle, and the file stays open and listed in the satellite, if that survives.
    pub open_stat_failure_keeps_file :
        (g : GoError)
        → Opens
        → find s.fds (F.fd file) ≡ none
        → F.stat file w ≡ (raise g, w1)
        → (Calls.open_path client_os p flags mode (connected F server_os c (some s)) ≡ (
          Outcome.errno (number_seen client_os server_os g),
          connected F server_os c (survivor g (listing w1)),
        ))
          × (find (listing w1).fds (F.fd file) ≡ some file)
    unfolding Calls.open_path dispatch describe_open
    open_stat_failure_keeps_file g e unused st = (
      refused_across F server_os client_os _ _ c s g (listing w1) (
          open_path-done F server_os open_request s w file e unused
          ∙ >>=-raise server_os (F.stat file) _ (listing w) g w1 st),
      rw find-store (ground arith),
    )
