-- ===== src/Server/Runs/Quiet.antt =====
-- The handlers of server/TunnelServer.cc that let nobody in.
use zn_tunnel.Prelude.{
  Bool, ℕ, zero, suc, ◌<◌, ◌≡◌, ◌&&◌, ◌∙◌, refl, sym, ap, inl, inr, List, [], ◌∷◌, ◌++◌, Option,
  some, arith, subst, Bool-cases, Option-cases, length, get_elem?, set, length-set, leb, pos, u32,
}
use zn_tunnel.Memory.{Memory}
use zn_tunnel.Buffer.{Buffer, move_front_boundary, resize}
use zn_tunnel.Pool
use zn_tunnel.Pool.{Pool}
use zn_tunnel.Containers.Order.{Eq, same, nat_eq}
use zn_tunnel.Napt.{Napt, remove_client}
use zn_tunnel.Napt.Consistency.{IsConsistent, remove_client-IsConsistent}
use zn_tunnel.Transmission.Constant.{SessionStatus, idle, connected, disconnected, error}
use zn_tunnel.Transmission.Cryptor.{Cipher}
use zn_tunnel.Transmission.Rpc.State.{ErrorCode, failed, Answer}
use zn_tunnel.Transmission.Session.{Session, is_connected, status_connected, update_transmit}
use zn_tunnel.Server.State.{TunnelServer, receives_into}
use zn_tunnel.Server.Login.{is_session_of, rpc_ping_handler, rpc_disconnect_handler, remove_session}
use zn_tunnel.Server.Forward.{raw_packet_handler}
use zn_tunnel.Server.Forward.Went.{Consistent}
use zn_tunnel.Server.Forward.Return.{raw_packet_handler_delivers}
use zn_tunnel.Server.Receive.{start_receive, dispatch_datagram, on_socket_receive}
use zn_tunnel.Server.Receive.Laws.{dispatch_datagram_lem}
use zn_tunnel.Server.Table.{
  Slot, vacant, slot, is_held_by, leave, slot_of, table, table-set, Unmoved, set-Unmoved,
}

module _ {State Endpoint Callback : Type 0} where
  -- What a handler that lets nobody in leaves as it should be.
  abbrev pub Quiet :
      TunnelServer State Endpoint Callback → TunnelServer State Endpoint Callback → Type 0
  Quiet before after = Consistent after × Unmoved before.sessions after.sessions

module _ {State Endpoint Callback : Type 0} (cipher : Cipher State) ⦃e : Eq Endpoint⦄
    (endpoint_less : Endpoint → Endpoint → Bool)
    (on_request : Memory → Buffer → Endpoint → ℕ → Answer Callback) where
  pub on_socket_receive-Quiet :
      (server : TunnelServer State Endpoint Callback) (err : ErrorCode) (transfered : ℕ)
      (buf : Buffer) (now control : ℕ) (callback_pool : Option Pool) (chunk : ℕ)
      {after : TunnelServer State Endpoint Callback}
      → Consistent server
      → on_socket_receive cipher endpoint_less on_request server err transfered buf now control
          callback_pool chunk
        ≡ some after
      → Quiet server after
  unfolding on_socket_receive start_receive
  on_socket_receive-Quiet server err transfered buf now control callback_pool chunk {after} v h =
      let data_buf = move_front_boundary (resize buf (u32 transfered)) (pos 1) in
      let command = server.rpc.memory buf.start in
      elim (Bool-cases (failed err)) [
        | inl failure ↦
            let is_after : record server { pool = Pool.free server.pool buf } ≡ after =
              ground (arith, failure, h) in
            subst (Quiet server) is_after (v, (refl, refl))
        | inr fine ↦
            elim (Option-cases (
              dispatch_datagram cipher endpoint_less on_request server command now control
                callback_pool data_buf)) [
                  | inl crashed ↦ absurd (ground (arith, fine, crashed, h))
                  | inr (handled, dispatched) ↦
                      let (consistent, unmoved) =
                        dispatch_datagram_lem cipher endpoint_less on_request server command now
                          control callback_pool data_buf v dispatched in
                      elim (Option-cases
                        (Pool.alloc 1600 (Pool.free handled.pool data_buf) chunk)) [
                          | inl empty ↦ absurd (ground (arith, fine, dispatched, empty, h))
                          | inr ((block, pool), given) ↦
                              let next : TunnelServer State Endpoint Callback = record handled {
                                pool = pool;
                                requests =
                                    handled.requests
                                    ++ receives_into (move_front_boundary block (pos 50)) ∷ [];
                              } in
                              let is_after : next ≡ after =
                                ground (arith, fine, dispatched, given, h) in
                              subst (Quiet server) is_after (consistent, unmoved)
                        ]
                ]
      ]

module _ {State Endpoint Callback : Type 0} (cipher : Cipher State) where
  pub raw_packet_handler-Quiet :
      (server : TunnelServer State Endpoint Callback) (data_at size chunk : ℕ)
      {after : TunnelServer State Endpoint Callback}
      → Consistent server
      → raw_packet_handler cipher server data_at size chunk ≡ some after
      → Quiet server after
  raw_packet_handler-Quiet server data_at size chunk {after} v h =
      elim (raw_packet_handler_delivers cipher server data_at size chunk h) [
        | inl dropped ↦ subst (Quiet server) (sym dropped) (v, (refl, refl))
        | inr (conn, session, _, held, _, s) ↦
            let (cryptor, changed) = s.sessions in
            (
              (
                subst (λ (n : Napt ℕ). IsConsistent n) (sym s.tables.0) v.0,
                subst (λ (n : Napt ℕ). IsConsistent n) (sym s.tables.1) v.1,
              ),
              set-Unmoved server.sessions conn.client_id session
                  (record session { cryptor = cryptor }) held (refl, refl) changed,
            )
      ]

is_held_by-slot :
    {Endpoint : Type 0} ⦃e : Eq Endpoint⦄ (from client : Endpoint) (status : SessionStatus)
    → is_held_by from (slot status client) ≡ (same client from && status_connected status)
unfolding status_connected
is_held_by-slot from client idle = ground arith
is_held_by-slot from client connected = ground arith
is_held_by-slot from client disconnected = ground arith
is_held_by-slot from client error = ground arith

module _ {State Endpoint : Type 0} ⦃e : Eq Endpoint⦄ where
  is_session_of-slot :
      (from : Endpoint) (s : Session State Endpoint)
      → is_held_by from (slot_of s) ≡ is_session_of from s
  unfolding is_session_of is_connected
  is_session_of-slot from s = is_held_by-slot from s.endpoint s.status

  pub ping-Unmoved :
      (sessions : List (Session State Endpoint)) (from : Endpoint) (now : ℕ)
      → Unmoved sessions (rpc_ping_handler sessions from now).1
  unfolding rpc_ping_handler update_transmit
  ping-Unmoved [] from now = (refl, refl)
  ping-Unmoved (s ∷ rest) from now = elim (Bool-cases (is_session_of from s)) [
    | inl own ↦ rw own (refl, refl)
    | inr foreign ↦
        let others = ping-Unmoved rest from now in
        rw foreign
          (ap (λ (l : List (Slot Endpoint)). slot_of s ∷ l) others.0, omega (arith, others.1))
  ]

  -- The first session of this client becomes idle.
  pub disconnect-leave :
      (sessions : List (Session State Endpoint)) (from : Endpoint)
      → (table (rpc_disconnect_handler sessions from).1 ≡ leave from (table sessions))
        × (length (rpc_disconnect_handler sessions from).1 ≡ length sessions)
  unfolding rpc_disconnect_handler
  disconnect-leave [] from = (refl, refl)
  disconnect-leave (s ∷ rest) from = elim (Bool-cases (is_session_of from s)) [
    | inl own ↦ (rw (own, is_session_of-slot from s ∙ own) refl, rw own refl)
    | inr foreign ↦
        let others = disconnect-leave rest from in
        (
          rw (foreign, is_session_of-slot from s ∙ foreign)
              (ap (λ (l : List (Slot Endpoint)). slot_of s ∷ l) others.0),
          rw foreign (omega (arith, others.1)),
        )
  ]

module _ {State Endpoint : Type 0} where
  set-beyond :
      (sessions : List (Session State Endpoint)) (id : ℕ)
      → length sessions < id
      → set (table sessions) id vacant ≡ table sessions
  set-beyond [] id beyond = refl
  set-beyond (s ∷ rest) zero beyond = absurd (omega (arith, beyond))
  set-beyond (s ∷ rest) (suc id) beyond =
      ap (λ (l : List (Slot Endpoint)). slot_of s ∷ l) (set-beyond rest id (omega (arith, beyond)))

module _ {State Endpoint Callback : Type 0} where
  -- The session of this number becomes idle, if there is one.
  abbrev pub Removed :
      ℕ → TunnelServer State Endpoint Callback → TunnelServer State Endpoint Callback → Type 0
  Removed id before after =
      Consistent after
      × (table after.sessions ≡ set (table before.sessions) id vacant)
      × (length after.sessions ≡ length before.sessions)

  pub remove-Removed :
      (server : TunnelServer State Endpoint Callback) (id : ℕ)
      {after : TunnelServer State Endpoint Callback}
      → Consistent server
      → remove_session server id ≡ some after
      → Removed id server after
  unfolding remove_session
  remove-Removed server id {after} v h = elim (Bool-cases (leb id (length server.sessions))) [
    | inr beyond ↦
        let is_after : server ≡ after = ground (arith, beyond, h) in
        subst (Removed id server) is_after
          (v, sym (set-beyond server.sessions id (ground (arith, beyond))), refl)
    | inl within ↦ elim (Option-cases (get_elem? server.sessions id)) [
      | inl gone ↦ absurd (ground (arith, within, gone, h))
      | inr (s, held) ↦
          let freed = record s { status = idle } in
          let next : TunnelServer State Endpoint Callback = record server {
            sessions = set server.sessions id freed;
            tcp_napt = remove_client server.tcp_napt id;
            udp_napt = remove_client server.udp_napt id;
          } in
          let is_after : next ≡ after = ground (arith, within, held, h) in
          subst (Removed id server) is_after (
            (
              remove_client-IsConsistent server.tcp_napt id v.0,
              remove_client-IsConsistent server.udp_napt id v.1,
            ),
            table-set server.sessions id freed,
            length-set server.sessions id freed,
          )
    ]
  ]
