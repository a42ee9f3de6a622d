-- ===== src/Server/Forward.antt =====
-- The packet handlers of server/TunnelServer.cc. `none` is what C++ leaves undefined: a null
-- connection, a session out of range, a control block that is gone, a size that wraps.
pub mod Went
pub mod Effects
pub mod Return
pub mod Seal
pub mod Translate
pub mod Returns
use mathlib.Core.Option
use zn_tunnel.Prelude.{
  ltb, ◌>>=◌, ℕ, ◌+◌, ◌^◌, Bool, true, false, ◌||◌, not, List, [], ◌∷◌, ◌++◌, Option, none, some,
  if◌then◌else◌, leb, ◌==◌, sub32, u32, length, get_elem?, set, pos, negsuc, signed32,
}
use zn_tunnel.Memory.{Memory, store, load16, load_list}
use zn_tunnel.Buffer.{Buffer, move_front_boundary, resize}
use zn_tunnel.Pool.{alloc}
use zn_tunnel.Containers.Order.{Eq, same, nat_eq}
use zn_tunnel.Napt.{Connection, Napt, create_if_not_exist, find_server}
use zn_tunnel.Protocol.Number.{tcp, udp}
use zn_tunnel.Protocol.Ip4
use zn_tunnel.Protocol.Ip4.{Ip4}
use zn_tunnel.Protocol.Tcp
use zn_tunnel.Protocol.Tcp.{Tcp}
use zn_tunnel.Protocol.Udp
use zn_tunnel.Protocol.Udp.{Udp}
use zn_tunnel.Transmission.Constant.{command_code, transmit}
use zn_tunnel.Transmission.Cryptor.{Cipher, decrypt, encrypt_to}
use zn_tunnel.Transmission.Session.{Session, is_connected, update_transmit}
use zn_tunnel.Server.State.{TunnelServer, Request, writes_raw, sends_to}

-- The fuel of `createIfNotExist`: more than there are ports. That of a checksum: its carries.
abbrev pub port_fuel : ℕ
port_fuel = 65537

abbrev pub carry_fuel : ℕ
carry_fuel = 3

module _ {State Endpoint : Type 0} ⦃e : Eq Endpoint⦄ where
  -- The guards of `_processTransmit` on a session, at the endpoint of the datagram.
  unfoldable pub accepts : Session State Endpoint → Endpoint → Memory → Ip4 → Bool
  unfolding is_connected Ip4.calculate_checksum Ip4.checksum
  accepts session from m ip4 =
      if not (same session.endpoint from) || not (is_connected session)
      then false
      else elim (Ip4.calculate_checksum m ip4 carry_fuel) [
        | none ↦ false
        | some sum ↦ sum == Ip4.checksum m ip4
      ]

module _ {State Endpoint Callback : Type 0} where
  abbrev pub with_memory :
      TunnelServer State Endpoint Callback → Memory → TunnelServer State Endpoint Callback
  with_memory server m = record server { rpc = record server.rpc { memory = m } }

  -- The branch of a TCP packet, without the `write` that follows it.
  unfoldable pub transmit_tcp :
      TunnelServer State Endpoint Callback → ℕ → Ip4 → Option (TunnelServer State Endpoint Callback)
  unfolding create_if_not_exist Tcp.tcp_of_ip4 Tcp.source_port Tcp.dest_port Tcp.set_source_port
      Tcp.calculate_checksum_inplace Ip4.dest_ip Ip4.set_source_ip Ip4.calculate_checksum_inplace
  transmit_tcp server client_id ip4 = do
    let m = server.rpc.memory
    let segment = Tcp.tcp_of_ip4 m ip4
    (found, napt) ←
        create_if_not_exist port_fuel server.tcp_napt client_id (Tcp.source_port m segment)
          (Ip4.dest_ip m ip4) (Tcp.dest_port m segment)
    conn ← found
    let ported = Tcp.set_source_port m segment conn.client_port
    summed ←
        Tcp.calculate_checksum_inplace carry_fuel (Ip4.set_source_ip ported ip4 server.if_address)
          segment
    final ← Ip4.calculate_checksum_inplace carry_fuel summed ip4
    some (with_memory (record server { tcp_napt = napt }) final)

  -- The branch of a UDP packet.
  unfoldable pub transmit_udp :
      TunnelServer State Endpoint Callback → ℕ → Ip4 → Option (TunnelServer State Endpoint Callback)
  unfolding create_if_not_exist Udp.udp_of_ip4 Udp.source_port Udp.dest_port Udp.set_source_port
      Udp.set_checksum Ip4.dest_ip Ip4.set_source_ip Ip4.calculate_checksum_inplace
  transmit_udp server client_id ip4 = do
    let m = server.rpc.memory
    let datagram = Udp.udp_of_ip4 m ip4
    (found, napt) ←
        create_if_not_exist port_fuel server.udp_napt client_id (Udp.source_port m datagram)
          (Ip4.dest_ip m ip4) (Udp.dest_port m datagram)
    conn ← found
    let ported = Udp.set_source_port m datagram conn.client_port
    let sourced = Ip4.set_source_ip ported ip4 server.if_address
    final ← Ip4.calculate_checksum_inplace carry_fuel (Udp.set_checksum sourced datagram 0) ip4
    some (with_memory (record server { udp_napt = napt }) final)

  -- `_rawSocket.write(data, size)`.
  unfoldable pub write_raw :
      TunnelServer State Endpoint Callback → ℕ → ℕ → TunnelServer State Endpoint Callback
  write_raw server data_at size = record server {
    requests = server.requests ++ writes_raw (load_list server.rpc.memory data_at size) ∷ [];
  }

  -- The session of the connection that a packet belongs to: `none` is a packet that is dropped,
  -- `some none` an index out of range.
  unfoldable pub session_of :
      TunnelServer State Endpoint Callback
      → Option (Connection ℕ)
      → Option (Option (Connection ℕ × Session State Endpoint))
  unfolding is_connected
  session_of server none = none
  session_of server (some conn) = elim (get_elem? server.sessions conn.client_id) [
    | none ↦ some none
    | some session ↦ if is_connected session then some (some (conn, session)) else none
  ]

module _ {State Endpoint Callback : Type 0} (cipher : Cipher State) where
  -- What `_processTransmit` does with a packet of a session that it accepts. The size of a datagram
  -- under two bytes wraps, and decrypting 4 GB leaves the buffer: it is then `none`.
  unfoldable pub transmit_accepted :
      TunnelServer State Endpoint Callback
      → Session State Endpoint
      → ℕ
      → Ip4
      → ℕ
      → Buffer
      → Option (TunnelServer State Endpoint Callback)
  unfolding decrypt update_transmit transmit_tcp transmit_udp write_raw Ip4.protocol
  transmit_accepted server session client_id ip4 now buf =
      let data_at = buf.start + 2 in
      let size = sub32 buf.size 2 in
      let (m, cryptor) = decrypt cipher server.rpc.memory session.cryptor data_at size in
      let updated =
        update_transmit (record session { cryptor = cryptor }) now
          (signed32 (u32 (buf.size + 1))) in
      let opened =
        with_memory (record server { sessions = set server.sessions client_id updated }) m in
      if ltb buf.size 2
      then none
      else if Ip4.protocol m ip4 == tcp
      then Option.map (λ s. write_raw s data_at size) (transmit_tcp opened client_id ip4)
      else if Ip4.protocol m ip4 == udp
      then Option.map (λ s. write_raw s data_at size) (transmit_udp opened client_id ip4)
      else some opened

  -- `_processTransmit(buf)`, at a time.
  unfoldable pub process_transmit :
      ⦃e : Eq Endpoint⦄
      → TunnelServer State Endpoint Callback
      → ℕ
      → Buffer
      → Option (TunnelServer State Endpoint Callback)
  unfolding accepts transmit_accepted
  process_transmit server now buf =
      let client_id = load16 server.rpc.memory buf.start in
      let ip4 : Ip4 = record { header = buf.start + 2; size = sub32 buf.size 2 } in
      elim (get_elem? server.sessions client_id) [
        | none ↦ some server
        | some session ↦
            if accepts session server.receive_ep server.rpc.memory ip4
            then transmit_accepted server session client_id ip4 now buf
            else some server
      ]

  -- The datagram that carries a packet to a client. The address of a new chunk of buffers is an
  -- argument.
  unfoldable pub send_packet :
      TunnelServer State Endpoint Callback
      → ℕ
      → Session State Endpoint
      → ℕ
      → ℕ
      → ℕ
      → Option (TunnelServer State Endpoint Callback)
  unfolding alloc move_front_boundary resize encrypt_to command_code
  send_packet server client_id session data_at size chunk = do
    (block, pool) ← alloc 1600 server.pool chunk
    let moved = move_front_boundary block (pos 10)
    let m = store server.rpc.memory moved.start (command_code transmit)
    let buf = resize moved (u32 (size + 1))
    let (sent, cryptor) = encrypt_to cipher m session.cryptor data_at (buf.start + 1) size
    some (record (with_memory server sent) {
      sessions = set server.sessions client_id (record session { cryptor = cryptor });
      pool = pool;
      requests =
          server.requests ++ sends_to session.endpoint (load_list sent buf.start buf.size) buf ∷ [];
    })

  -- What a branch does with the session that it found, where it writes the client's port first.
  unfoldable pub deliver :
      TunnelServer State Endpoint Callback
      → Option (Option (Connection ℕ × Session State Endpoint))
      → (Connection ℕ → Memory)
      → ℕ
      → ℕ
      → ℕ
      → Option (TunnelServer State Endpoint Callback)
  unfolding send_packet
  deliver server none translated data_at size chunk = some server
  deliver server (some none) translated data_at size chunk = none
  deliver server (some (some (conn, session))) translated data_at size chunk =
      send_packet (with_memory server (translated conn)) conn.client_id session data_at size chunk

  -- `_rawSocketPacketHandler(data, size)`.
  unfoldable pub raw_packet_handler :
      TunnelServer State Endpoint Callback
      → ℕ
      → ℕ
      → ℕ
      → Option (TunnelServer State Endpoint Callback)
  unfolding session_of deliver find_server Ip4.protocol Ip4.source_ip Tcp.tcp_of_ip4 Tcp.source_port
      Tcp.dest_port Tcp.set_dest_port Udp.udp_of_ip4 Udp.source_port Udp.dest_port Udp.set_dest_port
  raw_packet_handler server data_at size chunk =
      let m = server.rpc.memory in
      let ip : Ip4 = record { header = data_at; size = size } in
      let segment = Tcp.tcp_of_ip4 m ip in
      let datagram = Udp.udp_of_ip4 m ip in
      if Ip4.protocol m ip == tcp
      then deliver server
          (session_of server (
            find_server server.tcp_napt (Ip4.source_ip m ip) (Tcp.source_port m segment)
              (Tcp.dest_port m segment)))
          (λ conn. Tcp.set_dest_port m segment conn.client_port) data_at size chunk
      else if Ip4.protocol m ip == udp
      then deliver server
          (session_of server (
            find_server server.udp_napt (Ip4.source_ip m ip) (Udp.source_port m datagram)
              (Udp.dest_port m datagram)))
          (λ conn. Udp.set_dest_port m datagram conn.client_port) data_at size chunk
      else some server
