-- ===== src/Server/Login.antt =====
-- The handlers of the remote calls of server/TunnelServer.cc, on the sessions.
pub mod Laws
use zn_tunnel.Prelude.{
  ℕ, zero, suc, ◌+◌, ◌^◌, Bool, true, false, ◌&&◌, List, [], ◌∷◌, ◌++◌, Option, none, some,
  if◌then◌else◌, ltb, leb, ◌==◌, u16, length, get_elem?, set, pos,
}
use zn_tunnel.Containers.Order.{Eq, same, nat_eq}
use zn_tunnel.Napt.{remove_client}
use zn_tunnel.Transmission.Constant.{idle, RpcErrorType, success, wrong_credential, not_connected}
use zn_tunnel.Transmission.Cryptor.{Cipher}
use zn_tunnel.Transmission.Session.{Session, is_connected, is_idle, update_transmit, reset}
use zn_tunnel.Server.State.{TunnelServer}

-- `std::string ==`.
unfoldable pub same_string : List ℕ → List ℕ → Bool
same_string [] [] = true
same_string [] (b ∷ bs) = false
same_string (a ∷ rest) [] = false
same_string (a ∷ rest) (b ∷ bs) = a == b && same_string rest bs

-- "zxl" and "457348".
abbrev pub user_name : List ℕ
user_name = 122 ∷ 120 ∷ 108 ∷ []

abbrev pub user_password : List ℕ
user_password = 52 ∷ 53 ∷ 55 ∷ 51 ∷ 52 ∷ 56 ∷ []

module _ {State Endpoint : Type 0} where
  -- The loop over the sessions at `i`, with the bits of the `int16_t id` so far.
  unfoldable pub idle_slot : List (Session State Endpoint) → ℕ → ℕ → ℕ
  unfolding is_idle
  idle_slot [] i id = id
  idle_slot (s ∷ rest) i id = idle_slot rest (i + 1) (if is_idle s then u16 i else id)

  -- `sessions[id].reset(id, from)`, and what is returned; `none` is an index out of range.
  unfoldable pub reset_slot :
      Cipher State
      → List (Session State Endpoint)
      → ℕ
      → Endpoint
      → ℕ
      → List ℕ
      → List ℕ
      → Option ((RpcErrorType × List ℕ × List ℕ) × List (Session State Endpoint))
  unfolding reset
  reset_slot cipher sessions id from now key iv =
      if ltb id (2 ^ 15)
      then elim (get_elem? sessions id) [
        | none ↦ none
        | some s ↦ some ((success, key, iv), set sessions id (reset cipher s id from now key iv))
      ]
      else none

  -- `_rpcConnectHandler(from, name, password)`, with the random key and vector of the session and
  -- a `Session()` for the one that is added if none is idle.
  unfoldable pub rpc_connect_handler :
      Cipher State
      → List (Session State Endpoint)
      → Endpoint
      → List ℕ
      → List ℕ
      → ℕ
      → List ℕ
      → List ℕ
      → Session State Endpoint
      → Option ((RpcErrorType × List ℕ × List ℕ) × List (Session State Endpoint))
  unfolding same_string idle_slot reset_slot
  rpc_connect_handler cipher sessions from name password now key iv blank =
      if same_string name user_name && same_string password user_password
      then (let id = idle_slot sessions 0 0xffff in
          if id == 0xffff
          then reset_slot cipher (sessions ++ blank ∷ []) (u16 (length sessions)) from now key iv
          else reset_slot cipher sessions id from now key iv)
      else some ((wrong_credential, [], []), sessions)

module _ {State Endpoint : Type 0} ⦃e : Eq Endpoint⦄ where
  -- The test of the sessions that `_rpcPingHandler` and `_rpcDisconnectHandler` share.
  unfoldable pub is_session_of : Endpoint → Session State Endpoint → Bool
  unfolding is_connected
  is_session_of from s = same s.endpoint from && is_connected s

  -- `_rpcPingHandler(from)`.
  unfoldable pub rpc_ping_handler :
      List (Session State Endpoint) → Endpoint → ℕ → RpcErrorType × List (Session State Endpoint)
  unfolding is_session_of update_transmit
  rpc_ping_handler [] from now = (not_connected, [])
  rpc_ping_handler (s ∷ rest) from now =
      let (err, others) = rpc_ping_handler rest from now in
      if is_session_of from s
      then (success, update_transmit s now (pos 0) ∷ rest)
      else (err, s ∷ others)

  -- `_rpcDisconnectHandler(from)`.
  unfoldable pub rpc_disconnect_handler :
      List (Session State Endpoint) → Endpoint → RpcErrorType × List (Session State Endpoint)
  unfolding is_session_of
  rpc_disconnect_handler [] from = (not_connected, [])
  rpc_disconnect_handler (s ∷ rest) from =
      let (err, others) = rpc_disconnect_handler rest from in
      if is_session_of from s
      then (success, record s { status = idle } ∷ rest)
      else (err, s ∷ others)

-- `_removeSession(id)`; `none` is an index out of range.
unfoldable pub remove_session :
    {State Endpoint Callback : Type 0}
    → TunnelServer State Endpoint Callback
    → ℕ
    → Option (TunnelServer State Endpoint Callback)
unfolding remove_client
remove_session server id =
    if leb id (length server.sessions)
    then elim (get_elem? server.sessions id) [
      | none ↦ none
      | some s ↦ some (record server {
        sessions = set server.sessions id (record s { status = idle });
        tcp_napt = remove_client server.tcp_napt id;
        udp_napt = remove_client server.udp_napt id;
      })
    ]
    else some server
