-- ===== src/Server/State.antt =====
-- The state of `class TunnelServer`, server/TunnelServer.h.
use zn_tunnel.Prelude.{ℕ, zero, suc, ◌+◌, List, [], ◌∷◌}
use zn_tunnel.Buffer.{Buffer}
use zn_tunnel.Pool.{Pool}
use zn_tunnel.Napt.{Napt, new_napt}
use zn_tunnel.Transmission.Rpc.State.{Rpc}
use zn_tunnel.Transmission.Session.{Session}

-- What the server asks its sockets to do: a packet for the raw socket, a datagram with the buffer
-- that is freed once it is sent, and a buffer to receive into.
pub data Request (Endpoint : Type 0) : Type 0 where
  writes_raw : List ℕ → Request Endpoint
  sends_to : Endpoint → List ℕ → Buffer → Request Endpoint
  receives_into : Buffer → Request Endpoint

pub record TunnelServerConfig : Type 0 where
  pub listen_port : ℕ
  pub port_from : ℕ
  pub port_to : ℕ
  pub max_sessions : ℕ
  pub key : List ℕ
  pub iv : List ℕ

-- The memory is that of `rpc`; `_cryptor` is the cryptor of `rpc`, which only `rpc` uses.
pub record TunnelServer (State Endpoint Callback : Type 0) : Type 0 where
  pub config : TunnelServerConfig
  pub tcp_napt : Napt ℕ
  pub udp_napt : Napt ℕ
  pub sessions : List (Session State Endpoint)
  pub pool : Pool
  pub rpc : Rpc State Endpoint Callback
  pub receive_ep : Endpoint
  pub if_address : ℕ
  pub requests : List (Request Endpoint)

-- `std::vector<Session>(n)` from element `i` on: each a `Session()` of its own.
unfoldable pub blank_sessions :
    {State Endpoint : Type 0} → (ℕ → Session State Endpoint) → ℕ → ℕ → List (Session State Endpoint)
blank_sessions blank i zero = []
blank_sessions blank i (suc n) = blank i ∷ blank_sessions blank (i + 1) n

-- `TunnelServer(config, pool)`, with the sessions that `sessions(maxSessions)` makes, the state of `_rpc`, the endpoint that `_receiveEp` starts with and the address of the interface.
unfoldable pub new_server :
    {State Endpoint Callback : Type 0}
    → TunnelServerConfig
    → Pool
    → (ℕ → Session State Endpoint)
    → Rpc State Endpoint Callback
    → Endpoint
    → ℕ
    → TunnelServer State Endpoint Callback
unfolding new_napt blank_sessions
new_server config pool blank rpc endpoint if_address = record {
  config = config;
  tcp_napt = new_napt ℕ config.port_from config.port_to;
  udp_napt = new_napt ℕ config.port_from config.port_to;
  sessions = blank_sessions blank 0 config.max_sessions;
  pool = pool;
  rpc = rpc;
  receive_ep = endpoint;
  if_address = if_address;
  requests = [];
}
