-- ===== src/Server/Runs.antt =====
-- The server of server/TunnelServer.cc while it runs: its handlers, which the event loop calls one
-- after the other in any order, as a relation on its states.
pub mod Admission
pub mod Quiet
pub mod Refinement
pub mod Authority
use zn_tunnel.Prelude.{ℕ, ◌≡◌, Bool, ◌&&◌, List, [], ◌∷◌, Option, some, if◌then◌else◌}
use zn_tunnel.Memory.{Memory}
use zn_tunnel.Buffer.{Buffer}
use zn_tunnel.Pool.{Pool}
use zn_tunnel.Containers.Order.{Eq}
use zn_tunnel.Transmission.Constant.{RpcErrorType, idle}
use zn_tunnel.Transmission.Cryptor.{Cipher}
use zn_tunnel.Transmission.Rpc.State.{Rpc, ErrorCode, Answer}
use zn_tunnel.Transmission.Session.{Session}
use zn_tunnel.Server.State.{TunnelServer, Request}
use zn_tunnel.Server.Login.{
  rpc_connect_handler, rpc_ping_handler, rpc_disconnect_handler, remove_session,
}
use zn_tunnel.Server.Table.{Attempt, Event, asks, leaves, removes}
use zn_tunnel.Server.Forward.{raw_packet_handler}
use zn_tunnel.Server.Receive.{on_socket_receive}

module _ {State Endpoint Callback : Type 0} (cipher : Cipher State) ⦃e : Eq Endpoint⦄
    (endpoint_less : Endpoint → Endpoint → Bool)
    (on_request : Memory → Buffer → Endpoint → ℕ → Answer Callback) where
  -- The states that a server comes to, with the calls to log in and out and the removals so far, the
  -- last one first. A handler that does not return is no step.
  -- `elsewhere` is what the sockets, the timers of Rpc and the pool do between two handlers: they
  -- store what was received and who sent it, and change anything that is theirs.
  pub data Run (start : TunnelServer State Endpoint Callback)
      : List (Event Endpoint) → TunnelServer State Endpoint Callback → Type 0 where
    begins : Run start [] start
    receives :
        {events : List (Event Endpoint)} {server after : TunnelServer State Endpoint Callback}
        (err : ErrorCode) (transfered : ℕ) (buf : Buffer) (now control : ℕ)
        (callback_pool : Option Pool) (chunk : ℕ)
        → Run start events server
        → on_socket_receive cipher endpoint_less on_request server err transfered buf now control
            callback_pool chunk
          ≡ some after
        → Run start events after
    from_net :
        {events : List (Event Endpoint)} {server after : TunnelServer State Endpoint Callback}
        (data_at size chunk : ℕ)
        → Run start events server
        → raw_packet_handler cipher server data_at size chunk ≡ some after
        → Run start events after
    connects :
        {events : List (Event Endpoint)} {server : TunnelServer State Endpoint Callback}
        {answer : RpcErrorType × List ℕ × List ℕ} {sessions : List (Session State Endpoint)}
        (attempt : Attempt Endpoint) (now : ℕ) (key iv : List ℕ) (blank : Session State Endpoint)
        → Run start events server
        → rpc_connect_handler cipher server.sessions attempt.from attempt.name attempt.password now
            key iv blank
          ≡ some (answer, sessions)
        → Run start (asks attempt ∷ events) (record server { sessions = sessions })
    pings :
        {events : List (Event Endpoint)} {server : TunnelServer State Endpoint Callback}
        (from : Endpoint) (now : ℕ)
        → Run start events server
        → Run start events
            (record server { sessions = (rpc_ping_handler server.sessions from now).1 })
    disconnects :
        {events : List (Event Endpoint)} {server : TunnelServer State Endpoint Callback}
        (from : Endpoint)
        → Run start events server
        → Run start
            (leaves from ∷ events)
            (record server { sessions = (rpc_disconnect_handler server.sessions from).1 })
    loses :
        {events : List (Event Endpoint)} {server after : TunnelServer State Endpoint Callback}
        (id : ℕ)
        → Run start events server
        → remove_session server id ≡ some after
        → Run start (removes id ∷ events) after
    elsewhere :
        {events : List (Event Endpoint)} {server : TunnelServer State Endpoint Callback}
        (rpc : Rpc State Endpoint Callback) (pool : Pool) (receive_ep : Endpoint)
        (requests : List (Request Endpoint))
        → Run start events server
        → Run start events
            (record server { rpc = rpc; pool = pool; receive_ep = receive_ep; requests = requests })
