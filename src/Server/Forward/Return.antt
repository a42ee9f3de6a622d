-- ===== src/Server/Forward/Return.antt =====
-- Packets that come back from the net, server/TunnelServer.cc: who they are sent to.
use zn_tunnel.Prelude.{
  ℕ, ◌+◌, ◌≡◌, refl, ◌⊎◌, inl, inr, true, List, [], ◌∷◌, ◌++◌, Option, none, some, arith, subst,
  Bool-cases, Option-cases, get_elem?, set, ◌==◌, pos, u32, if◌then◌else◌,
}
use zn_tunnel.Memory.{Memory, store, load_list}
use zn_tunnel.Buffer.{Buffer, move_front_boundary, resize}
use zn_tunnel.Pool.{alloc}
use zn_tunnel.Containers.Order.{nat_eq}
use zn_tunnel.Napt.{Connection, find_server}
use zn_tunnel.Protocol.Number.{tcp, udp}
use zn_tunnel.Protocol.Ip4
use zn_tunnel.Protocol.Ip4.{Ip4}
use zn_tunnel.Protocol.Tcp
use zn_tunnel.Protocol.Udp
use zn_tunnel.Transmission.Constant.{command_code, transmit}
use zn_tunnel.Transmission.Cryptor.{Cipher, Cryptor, encrypt_to}
use zn_tunnel.Transmission.Session.{Session, is_connected}
use zn_tunnel.Server.State.{TunnelServer, sends_to}
use zn_tunnel.Server.Forward.{session_of, send_packet, deliver, raw_packet_handler, with_memory}

module _ {State Endpoint Callback : Type 0} where
  -- One datagram more, to the client of the session.
  pub record SentTo (client_id : ℕ) (session : Session State Endpoint)
      (before after : TunnelServer State Endpoint Callback) : Type 0 where
    pub datagram : List ℕ
    pub buf : Buffer
    pub sent : after.requests ≡ before.requests ++ sends_to session.endpoint datagram buf ∷ []
    pub sessions :
        (cryptor : Cryptor State) × (after.sessions
          ≡ set before.sessions client_id (record session { cryptor = cryptor }))
    pub tables : (after.tcp_napt ≡ before.tcp_napt) × (after.udp_napt ≡ before.udp_napt)

  -- The connection that a packet from the net belongs to, by its protocol.
  unfoldable pub connection_of :
      TunnelServer State Endpoint Callback → ℕ → ℕ → Option (Connection ℕ)
  connection_of server data_at size =
      let m = server.rpc.memory in
      let ip : Ip4 = record { header = data_at; size = size } in
      let segment = Tcp.tcp_of_ip4 m ip in
      let datagram = Udp.udp_of_ip4 m ip in
      if Ip4.protocol m ip == tcp
      then find_server server.tcp_napt (Ip4.source_ip m ip) (Tcp.source_port m segment)
          (Tcp.dest_port m segment)
      else if Ip4.protocol m ip == udp
      then find_server server.udp_napt (Ip4.source_ip m ip) (Udp.source_port m datagram)
          (Udp.dest_port m datagram)
      else none

  session_of-connected :
      (server : TunnelServer State Endpoint Callback) (found : Option (Connection ℕ))
      {conn : Connection ℕ} {session : Session State Endpoint}
      → session_of server found ≡ some (some (conn, session))
      → (found ≡ some conn)
        × (get_elem? server.sessions conn.client_id ≡ some session)
        × (is_connected session ≡ true)
  unfolding session_of
  session_of-connected server none h = absurd (ground arith)
  session_of-connected server (some found) {conn} {session} h =
      elim (Option-cases (get_elem? server.sessions found.client_id)) [
        | inl gone ↦ absurd (ground (arith, gone))
        | inr (s, held) ↦ elim (Bool-cases (is_connected s)) [
          | inr off ↦ absurd (ground (arith, held, off, h))
          | inl on ↦ ground (arith, held, on, h)
        ]
      ]

  -- One datagram to the client of a connection, or none.
  abbrev pub Delivered :
      TunnelServer State Endpoint Callback
      → Option (Connection ℕ)
      → TunnelServer State Endpoint Callback
      → Type 0
  Delivered server found after =
      (after ≡ server)
      ⊎ ((conn : Connection ℕ) × (session : Session State Endpoint) × (found ≡ some conn)
          × (get_elem? server.sessions conn.client_id ≡ some session)
          × (is_connected session ≡ true)
          × SentTo conn.client_id session server after)

module _ {State Endpoint Callback : Type 0} (cipher : Cipher State) where
  send_packet-SentTo :
      (server : TunnelServer State Endpoint Callback) (client_id : ℕ)
      (session : Session State Endpoint) (data_at size chunk : ℕ)
      {after : TunnelServer State Endpoint Callback}
      → send_packet cipher server client_id session data_at size chunk ≡ some after
      → SentTo client_id session server after
  unfolding send_packet
  send_packet-SentTo server client_id session data_at size chunk {after} h =
      elim (Option-cases (alloc 1600 server.pool chunk)) [
        | inl failed ↦ absurd (ground (arith, failed))
        | inr ((block, pool), allocated) ↦
            let moved = move_front_boundary block (pos 10) in
            let m = store server.rpc.memory moved.start (command_code transmit) in
            let buf = resize moved (u32 (size + 1)) in
            let (sent, cryptor) =
              encrypt_to cipher m session.cryptor data_at (buf.start + 1) size in
            let next : TunnelServer State Endpoint Callback = record (with_memory server sent) {
              sessions = set server.sessions client_id (record session { cryptor = cryptor });
              pool = pool;
              requests =
                  server.requests
                  ++ sends_to session.endpoint (load_list sent buf.start buf.size) buf ∷ [];
            } in
            let is_after : next ≡ after = ground (arith, allocated, h) in
            subst (SentTo client_id session server) is_after (record {
              datagram = load_list sent buf.start buf.size;
              buf = buf;
              sent = refl;
              sessions = (cryptor, refl);
              tables = (refl, refl);
            })
      ]

  deliver-Delivered :
      (server : TunnelServer State Endpoint Callback) (found : Option (Connection ℕ))
      (translated : Connection ℕ → Memory) (data_at size chunk : ℕ)
      {after : TunnelServer State Endpoint Callback}
      → deliver cipher server (session_of server found) translated data_at size chunk ≡ some after
      → Delivered server found after
  unfolding deliver
  deliver-Delivered server found translated data_at size chunk {after} h =
      elim (Option-cases (session_of server found)) [
        | inl dropped ↦ inl (ground (arith, dropped, h))
        | inr (none, beyond) ↦ absurd (ground (arith, beyond, h))
        | inr (some (conn, session), found_session) ↦
            let (is_found, held, on) = session_of-connected server found found_session in
            let s =
              send_packet-SentTo (with_memory server (translated conn)) conn.client_id session
                data_at size chunk {after = after} (ground (arith, found_session, h)) in
            inr (
              conn,
              session,
              is_found,
              held,
              on,
              record {
                datagram = s.datagram;
                buf = s.buf;
                sent = s.sent;
                sessions = s.sessions;
                tables = s.tables;
              },
            )
      ]

  -- A packet from the net is sent only to a client whose session is connected, which has the number
  -- of the connection that the packet's addresses and ports belong to, and in one datagram; else
  -- it is dropped without a change.
  pub raw_packet_handler_delivers :
      (server : TunnelServer State Endpoint Callback) (data_at size chunk : ℕ)
      {after : TunnelServer State Endpoint Callback}
      → raw_packet_handler cipher server data_at size chunk ≡ some after
      → Delivered server (connection_of server data_at size) after
  unfolding raw_packet_handler connection_of
  raw_packet_handler_delivers server data_at size chunk {after} h =
      let m = server.rpc.memory in
      let ip : Ip4 = record { header = data_at; size = size } in
      let segment = Tcp.tcp_of_ip4 m ip in
      let datagram = Udp.udp_of_ip4 m ip in
      elim (Bool-cases (Ip4.protocol m ip == tcp)) [
        | inl is_tcp ↦ rw is_tcp (
            deliver-Delivered server
              (find_server server.tcp_napt (Ip4.source_ip m ip) (Tcp.source_port m segment)
                (Tcp.dest_port m segment))
              (λ conn. Tcp.set_dest_port m segment conn.client_port) data_at size chunk
              (rw is_tcp at h))
        | inr not_tcp ↦ elim (Bool-cases (Ip4.protocol m ip == udp)) [
          | inl is_udp ↦
              rw (not_tcp, is_udp)
                (deliver-Delivered server
                  (find_server server.udp_napt (Ip4.source_ip m ip) (Udp.source_port m datagram)
                    (Udp.dest_port m datagram))
                  (λ conn. Udp.set_dest_port m datagram conn.client_port) data_at size chunk
                  (rw (not_tcp, is_udp) at h))
          | inr not_udp ↦ inl (ground (arith, not_tcp, not_udp, h))
        ]
      ]
