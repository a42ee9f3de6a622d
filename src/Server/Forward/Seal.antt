-- ===== src/Server/Forward/Seal.antt =====
-- The datagram of a packet that comes back from the net, server/TunnelServer.cc: that the client can
-- read it.
use mathlib.Core.Option.{some-injective}
use zn_tunnel.Prelude.{
  ℕ, suc, ◌+◌, ◌^◌, ◌≤◌, ◌<◌, ◌≡◌, sym, ap, ◌∙◌, ◌⊎◌, inl, List, [], ◌∷◌, ◌++◌, some, arith, set,
  pos, u32,
}
use zn_tunnel.Memory.{Memory, store, load_list}
use zn_tunnel.Memory.Laws.{
  IsBytes, store_self, store_ne, store-IsBytes, load_list-ext, load_list_split,
}
use zn_tunnel.Buffer.{Buffer, new_buffer, move_front_boundary, resize}
use zn_tunnel.Pool.{Pool, alloc}
use zn_tunnel.Containers.Order.{nat_eq}
use zn_tunnel.Transmission.Constant.{command_code, transmit}
use zn_tunnel.Transmission.Cryptor.{Cipher, IsCipher, Cryptor, encrypt_to, decrypt}
use zn_tunnel.Transmission.Cryptor.Laws.{IsSynchronized, encrypt_to_outside, decrypt-encrypt_to}
use zn_tunnel.Transmission.Session.{Session}
use zn_tunnel.Server.State.{TunnelServer, sends_to}
use zn_tunnel.Server.Forward.{send_packet, with_memory}

-- A block of the pool, with 10 bytes in front and `size + 1` to send.
abbrev pub outgoing : ℕ → ℕ → Buffer
outgoing a size = resize (move_front_boundary (new_buffer a 1600) (pos 10)) (u32 (size + 1))

outgoing_lem :
    (a size : ℕ)
    → a + 1600 < 2 ^ 64
    → size ≤ 1589
    → ((move_front_boundary (new_buffer a 1600) (pos 10)).start ≡ a + 10)
      × ((outgoing a size).start ≡ a + 10)
      × ((outgoing a size).size ≡ suc size)
unfolding new_buffer move_front_boundary resize
outgoing_lem a size mapped small = ground arith

module _ {State Endpoint Callback : Type 0} where
  -- A block at `a` that is free for a packet of `size` bytes, which stands elsewhere.
  pub record HasBlock (server : TunnelServer State Endpoint Callback) (data_at size chunk a : ℕ)
      (pool : Pool) : Type 0 where
    pub allocated : alloc 1600 server.pool chunk ≡ some (new_buffer a 1600, pool)
    pub mapped : a + 1600 < 2 ^ 64
    pub small : size ≤ 1589
    pub apart : (data_at + size ≤ a) ⊎ (a + 1600 ≤ data_at)
    pub bytes : IsBytes server.rpc.memory

module _ {State Endpoint Callback : Type 0} (cipher : Cipher State) where
  -- The memory once the packet stands encrypted in the block at `a`.
  abbrev sealed :
      TunnelServer State Endpoint Callback
      → Session State Endpoint
      → ℕ
      → ℕ
      → ℕ
      → Memory × Cryptor State
  sealed server session data_at size a =
      encrypt_to cipher (store server.rpc.memory (a + 10) (command_code transmit)) session.cryptor
        data_at (a + 11) size

  send_packet-eq :
      (server : TunnelServer State Endpoint Callback) (client_id : ℕ)
      (session : Session State Endpoint) (data_at size chunk a : ℕ) (pool : Pool)
      → alloc 1600 server.pool chunk ≡ some (new_buffer a 1600, pool)
      → a + 1600 < 2 ^ 64
      → size ≤ 1589
      → let (sent, cryptor) = sealed server session data_at size a in
        send_packet cipher server client_id session data_at size chunk
        ≡ some (record (with_memory server sent) {
          sessions = set server.sessions client_id (record session { cryptor = cryptor });
          pool = pool;
          requests =
              server.requests
              ++ sends_to session.endpoint (load_list sent (a + 10) (suc size)) (outgoing a size)
                ∷ [];
        })
  unfolding send_packet
  send_packet-eq server client_id session data_at size chunk a pool allocated mapped small =
      let (at, start, long) = outgoing_lem a size mapped small in
      let next : a + 10 + 1 ≡ a + 11 = omega arith in rw (allocated, start, long, at, next)

  -- A packet of at most 1589 bytes, in a memory of bytes and outside the block that the pool gives, with a cryptor of the
  -- session that stands at its key and vector: one datagram is sent to the endpoint of the session,
  -- from that block, and what the client has of it at `b` are the bytes of the datagram, in which
  -- it finds, with a cryptor that stands at the same key and vector, the command `TRANSMIT` and the
  -- packet.
  pub send_packet-decrypt :
      (laws : IsCipher cipher) (server : TunnelServer State Endpoint Callback) (client_id : ℕ)
      (session : Session State Endpoint) (data_at size chunk a : ℕ) (pool : Pool)
      (after : TunnelServer State Endpoint Callback) (m' : Memory) (d : Cryptor State) (b : ℕ)
      → HasBlock server data_at size chunk a pool
      → IsSynchronized cipher laws session.cryptor
      → IsSynchronized cipher laws d
      → d.key ≡ session.cryptor.key
      → d.iv ≡ session.cryptor.iv
      → send_packet cipher server client_id session data_at size chunk ≡ some after
      → load_list m' b (suc size) ≡ load_list after.rpc.memory (a + 10) (suc size)
      → (after.requests
          ≡ server.requests
            ++ sends_to session.endpoint (load_list m' b (suc size)) (outgoing a size) ∷ [])
        × (m' b ≡ command_code transmit)
        × (load_list (decrypt cipher m' d (b + 1) size).0 (b + 1) size
            ≡ load_list server.rpc.memory data_at size)
  send_packet-decrypt laws server client_id session data_at size chunk a pool after m' d b block vs
        vd k i sent received =
      let m = store server.rpc.memory (a + 10) (command_code transmit) in
      let is_after = some-injective _ _ (
        sym (
          send_packet-eq server client_id session data_at size chunk a pool block.allocated
            block.mapped block.small)
        ∙ sent) in
      let sealed_m = (sealed server session data_at size a).0 in
      let memory : after.rpc.memory ≡ sealed_m =
        sym (ap (λ (s : TunnelServer State Endpoint Callback). s.rpc.memory) is_after) in
      let next : a + 10 + 1 ≡ a + 11 = omega arith in
      let (first, rest) =
        load_list_split m' sealed_m b (a + 10) size
          (received ∙ ap (λ (t : Memory). load_list t (a + 10) (suc size)) memory) in
      let sent_bytes : load_list sealed_m (a + 10) (suc size) ≡ load_list m' b (suc size) =
        sym (received ∙ ap (λ (t : Memory). load_list t (a + 10) (suc size)) memory) in
      (
        sym (ap (λ (s : TunnelServer State Endpoint Callback). s.requests) is_after)
            ∙ ap
                (λ (bytes : List ℕ).
                  server.requests ++ sends_to session.endpoint bytes (outgoing a size) ∷ [])
                sent_bytes,
        first
            ∙ encrypt_to_outside cipher laws m session.cryptor data_at (a + 11) size (a + 10)
                (inl (omega arith))
            ∙ store_self server.rpc.memory (a + 10) (command_code transmit)
                (unfold command_code in omega arith),
        decrypt-encrypt_to cipher laws m m' session.cryptor d data_at (a + 11) (b + 1) size
              (store-IsBytes server.rpc.memory (a + 10) (command_code transmit) block.bytes) vs vd k
              i (rest ∙ ap (λ (t : ℕ). load_list sealed_m t size) next)
            ∙ load_list-ext m server.rpc.memory data_at size (λ x p q.
              store_ne server.rpc.memory (a + 10) (command_code transmit) x
                (ground (arith, block.apart))),
      )
