-- ===== src/Client/Rpc.antt =====
-- cmd/dockerfuse/client/rcp_client.go: the connection to the satellite as an interface, and the state
-- of DockerFuseClient.
use dockerfuse.Base.{ℕ, Option, none, some}
use dockerfuse.Base.Text.{Text}
use dockerfuse.Os.{Os}
use dockerfuse.RpcCommon.Error.{rpc_error_string_to_errno}
use dockerfuse.Satellite.Dispatch.{Method}

-- What rpcClient.Call gives: the reply, or an error with its text.
pub data Reply (A : Type 0) : Type 0 where
  reply : A → Reply A
  error : Text → Reply A

pub record Rpc : Type 1 where
  pub Conn : Type 0
  pub call : {A : Type 0} → Method A → Conn → Reply A × Conn

pub record Client (R : Rpc) : Type 0 where
  -- `none` is nil
  pub rpc_client : Option R.Conn
  pub container_id : Text
  pub satellite_full_remote_path : Text

-- The results of a client function when its errno is 0, its errno otherwise, or a panic.
pub data Outcome (A : Type 0) : Type 0 where
  done : A → Outcome A
  errno : ℕ → Outcome A
  panic : Outcome A

abbrev pub Action : Rpc → Type 0 → Type 0
Action R A = Client R → Outcome A × Client R

-- syserr = rpccommon.RPCErrorStringTOErrno(err)
unfoldable pub remote_error : {A : Type 0} → Os → Text → Outcome A
remote_error os t = elim (rpc_error_string_to_errno os t) [ none ↦ panic | some e ↦ errno e ]

module _ {R : Rpc} where
  -- A call whose reply and error text are turned into an outcome. A nil connection is dereferenced.
  unfoldable pub call_then :
      {A B : Type 0} → Method A → (A → Outcome B) → (Text → Outcome B) → Action R B
  call_then m on_reply on_error c = elim c.rpc_client [
    | none ↦ (panic, c)
    | some conn ↦
        let (r, conn') = R.call m conn in
        (
          elim r [ reply a ↦ on_reply a | error t ↦ on_error t ],
          record c { rpc_client = some conn' },
        )
  ]

  -- The common form: `if err != nil { return RPCErrorStringTOErrno(err) }`.
  unfoldable pub remote : {A B : Type 0} → Os → Method A → (A → B) → Action R B
  unfolding call_then
  remote os m f = call_then m (λ a. done (f a)) (remote_error os)
