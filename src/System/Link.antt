-- ===== src/System/Link.antt =====
-- net/rpc between the client and a satellite, as an implementation of the client's interface.
use dockerfuse.Base.{◌≡◌, refl, Option, none, some, arith}
use dockerfuse.Base.Text.{Text, str}
use dockerfuse.Os.{Os}
use dockerfuse.RpcCommon.Error.{Result, return, fail, panic}
use dockerfuse.Satellite.FileSystem.{FileSystem}
use dockerfuse.Satellite.Server.{Server}
use dockerfuse.Satellite.Dispatch.{Method, dispatch}
use dockerfuse.Client.Rpc.{Rpc, Reply, reply, error, Client, Outcome, call_then}

-- rpc.ErrShutdown, and io.ErrUnexpectedEOF, as the errors of Client.Call.
abbrev pub shutdown_text : Text
shutdown_text = str "connection is shut down"

abbrev pub lost_text : Text
lost_text = str "unexpected EOF"

-- The answer of a handler as the client gets it. A panic ends the process of the satellite, since
-- net/rpc runs handlers without a recover: the pending call is lost.
unfoldable pub deliver : {A S : Type 0} → Result A × S → Reply A × Option S
deliver (return a, s) = (reply a, some s)
deliver (fail t, s) = (error t, some s)
deliver (panic, s) = (error lost_text, none)

-- The connection is a running satellite, or none.
unfoldable pub call :
    (F : FileSystem)
    → Os
    → {A : Type 0} → Method A
    → Option (Server F)
    → Reply A × Option (Server F)
unfolding deliver
call F os m none = (error shutdown_text, none)
call F os m (some s) = deliver (dispatch F os m s)

abbrev pub satellite_rpc : FileSystem → Os → Rpc
satellite_rpc F os = record { Conn = Option (Server F); call = call F os }

-- A client whose connection is the given one.
abbrev pub connected :
    (F : FileSystem) (os : Os)
    → Client (satellite_rpc F os)
    → Option (Server F)
    → Client (satellite_rpc F os)
connected F os c conn = record c { rpc_client = some conn }

module _ (F : FileSystem) (os : Os) {A B : Type 0} (m : Method A) (on_reply : A → Outcome B)
    (on_error : Text → Outcome B) where
  module _ (c : Client (satellite_rpc F os)) (s t : Server F) where
    -- A call on a running satellite is its handler's answer.
    pub call_then-return :
        (a : A)
        → dispatch F os m s ≡ (return a, t)
        → call_then m on_reply on_error (connected F os c (some s))
          ≡ (on_reply a, connected F os c (some t))
    unfolding call_then call
    call_then-return a e = ground arith

    pub call_then-fail :
        (x : Text)
        → dispatch F os m s ≡ (fail x, t)
        → call_then m on_reply on_error (connected F os c (some s))
          ≡ (on_error x, connected F os c (some t))
    unfolding call_then call
    call_then-fail x e = ground arith

    pub call_then-panic :
        dispatch F os m s ≡ (panic, t)
        → call_then m on_reply on_error (connected F os c (some s))
          ≡ (on_error lost_text, connected F os c none)
    unfolding call_then call
    call_then-panic e = ground arith

  pub call_then-dead :
      (c : Client (satellite_rpc F os))
      → call_then m on_reply on_error (connected F os c none)
        ≡ (on_error shutdown_text, connected F os c none)
  unfolding call_then call
  call_then-dead c = refl
