-- ===== src/Client/Session/Connection.antt =====
-- Connecting leaves a connection, or none.
use dockerfuse.Base.{subst, ◌≡◌, refl, sym, Option, none, some, [], ◌∷◌, arith}
use dockerfuse.Base.Text.{Text}
use dockerfuse.Client.Rpc.{Rpc, Reply, reply, error, Client}
use dockerfuse.Client.Session.{
  Host, Session, ask, ◌>>=◌, with_client, disconnect, set_rpc_client, connect_satellite,
}
use dockerfuse.Client.Session.Laws.{>>=-reply, >>-reply, ask-reply, >>=-error, ask-error}

-- What a function that connects leaves: a connection if it succeeds, and none if it fails.
abbrev pub LeavesConnection : {R : Rpc} {A W : Type 0} → Reply A × (Client R × W) → Type 0
LeavesConnection {R} (reply a, (c, w)) = (conn : R.Conn) × (c.rpc_client ≡ some conn)
LeavesConnection (error t, (c, w)) = c.rpc_client ≡ none

module _ {R : Rpc} (H : Host R) where
  ask-LeavesConnection :
      {A B : Type 0} (call : H.World → Reply A × H.World) (f : A → Session H B) (c : Client R)
      (w : H.World) (r : Reply A × H.World)
      → call w ≡ r
      → c.rpc_client ≡ none
      → ((a : A) (w' : H.World) → LeavesConnection (f a (c, w')))
      → LeavesConnection (◌>>=◌ H (ask H call) f (c, w))
  unfolding ask
  ask-LeavesConnection call f c w (reply a, w') e lost h =
      subst LeavesConnection
        (sym (>>=-reply H (ask H call) f (c, w) (c, w') a (ask-reply H call c w w' a e))) (h a w')
  ask-LeavesConnection call f c w (error t, w') e lost h =
      subst LeavesConnection
        (sym (>>=-error H (ask H call) f (c, w) (c, w') t (ask-error H call c w w' t e))) lost

  abbrev attach : Text → Session H (Unit {0})
  attach id = ◌>>=◌ H (ask H (H.container_exec_attach id)) (λ conn. set_rpc_client H conn)

  abbrev exec : Session H (Unit {0})
  exec =
      ◌>>=◌ H
        (with_client H
          (λ c. ask H (H.container_exec_create c.container_id (c.satellite_full_remote_path ∷ []))))
        attach

  exec-LeavesConnection :
      (c : Client R) (w : H.World) → c.rpc_client ≡ none → LeavesConnection (exec (c, w))
  unfolding with_client set_rpc_client ask ◌>>=◌
  exec-LeavesConnection c w lost =
      ask-LeavesConnection
        (H.container_exec_create c.container_id (c.satellite_full_remote_path ∷ [])) attach c w _
        refl lost
        λ id w1.
          ask-LeavesConnection (H.container_exec_attach id) (set_rpc_client H) c w1 _ refl lost
            λ conn w2. (conn, refl)

  pub disconnect-none :
      (c : Client R) (w : H.World) → c.rpc_client ≡ none → disconnect H (c, w) ≡ (reply tt, (c, w))
  unfolding disconnect
  disconnect-none c w e = ground arith

  disconnect-some :
      (c : Client R) (w : H.World) (conn : R.Conn)
      → c.rpc_client ≡ some conn
      → disconnect H (c, w) ≡ (reply tt, (record c { rpc_client = none }, H.close conn w))
  unfolding disconnect
  disconnect-some c w conn e = ground arith

  -- ConnectSatellite leaves the client connected if it succeeds, and with no connection if it
  -- fails, also where it was connected before.
  pub connect_satellite-LeavesConnection :
      (c : Client R) (w : H.World) → LeavesConnection (connect_satellite H (c, w))
  unfolding connect_satellite
  connect_satellite-LeavesConnection c w = by_client c.rpc_client refl
    where
      by_client :
          (o : Option R.Conn) → c.rpc_client ≡ o → LeavesConnection (connect_satellite H (c, w))
      by_client none e =
          subst LeavesConnection
            (sym (>>-reply H (disconnect H) (exec) (c, w) (c, w) tt (disconnect-none c w e)))
            (exec-LeavesConnection c w e)
      by_client (some conn) e =
          subst LeavesConnection
            (sym (>>-reply H (disconnect H) (exec) (c, w) _ tt (disconnect-some c w conn e)))
            (exec-LeavesConnection (record c { rpc_client = none }) (H.close conn w) refl)
