-- ===== src/Server/Forward/Effects.antt =====
-- What a datagram of a client can change.
use zn_tunnel.Prelude.{
  ltb, u32, signed32, ℕ, ◌+◌, ◌≡◌, refl, ap, ◌∙◌, ◌⊎◌, inl, inr, List, [], ◌∷◌, ◌++◌, some, arith,
  subst, Bool-cases, Option-cases, sub32, get_elem?, set, ◌==◌,
}
use zn_tunnel.Memory.{load16, load_list}
use zn_tunnel.Buffer.{Buffer}
use zn_tunnel.Containers.Order.{Eq, nat_eq}
use zn_tunnel.Protocol.Number.{tcp, udp}
use zn_tunnel.Protocol.Ip4
use zn_tunnel.Protocol.Ip4.{Ip4}
use zn_tunnel.Transmission.Cryptor.{Cipher, decrypt}
use zn_tunnel.Transmission.Session.{Session, update_transmit}
use zn_tunnel.Server.State.{TunnelServer, Request, writes_raw}
use zn_tunnel.Server.Forward.{
  accepts, transmit_tcp, transmit_udp, write_raw, transmit_accepted, process_transmit, with_memory,
}
use zn_tunnel.Server.Forward.Went.{Kept, Consistent, Went, transmit_tcp-Went, transmit_udp-Went}

module _ {State Endpoint : Type 0} where
  -- A session that changes without a change of its client or of its status.
  abbrev pub IsSameClient : Session State Endpoint → Session State Endpoint → Type 0
  IsSameClient old s = (s.endpoint ≡ old.endpoint) × (s.status ≡ old.status)

module _ {State Endpoint Callback : Type 0} where
  -- What a datagram of a client changes: the session that it names, and the connections, and at
  -- most one packet is written to the raw socket.
  pub record Transmitted (client_id : ℕ) (before after : TunnelServer State Endpoint Callback)
      : Type 0 where
    pub kept : Kept before after
    pub consistent : Consistent after
    pub sessions :
        (after.sessions ≡ before.sessions)
        ⊎ ((old : Session State Endpoint) × (s : Session State Endpoint) × (get_elem?
                before.sessions client_id
              ≡ some old)
            × IsSameClient old s
            × (after.sessions ≡ set before.sessions client_id s))
    pub written :
        (after.requests ≡ before.requests)
        ⊎ ((packet : List ℕ) × (after.requests ≡ before.requests ++ writes_raw packet ∷ []))

  write_raw-Transmitted :
      (client_id data_at size : ℕ) (server opened middle : TunnelServer State Endpoint Callback)
      → Went opened middle
      → Kept server opened
      → Consistent opened
      → (opened.requests ≡ server.requests)
      → (old s : Session State Endpoint) → get_elem? server.sessions client_id ≡ some old
      → IsSameClient old s
      → (opened.sessions ≡ set server.sessions client_id s)
      → Transmitted client_id server (write_raw middle data_at size)
  unfolding write_raw
  write_raw-Transmitted client_id data_at size server opened middle w k v r old s known same_client
        o =
      record {
        kept = record {
          pool = w.kept.pool ∙ k.pool;
          receive_ep = w.kept.receive_ep ∙ k.receive_ep;
          if_address = w.kept.if_address ∙ k.if_address;
          rpc_state = (w.kept.rpc_state.0 ∙ k.rpc_state.0, w.kept.rpc_state.1 ∙ k.rpc_state.1);
        };
        consistent = w.consistent v;
        sessions = inr (old, s, known, same_client, w.sessions ∙ o);
        written = inr (
          load_list middle.rpc.memory data_at size,
          ap
              (λ (l : List (Request Endpoint)).
                l ++ writes_raw (load_list middle.rpc.memory data_at size) ∷ [])
              (w.requests ∙ r),
        );
      }

module _ {State Endpoint Callback : Type 0} (cipher : Cipher State) ⦃e : Eq Endpoint⦄ where
  -- The state once the packet is decrypted.
  abbrev opened_of :
      TunnelServer State Endpoint Callback
      → Session State Endpoint
      → ℕ
      → ℕ
      → Buffer
      → TunnelServer State Endpoint Callback
  opened_of server session client_id now buf =
      let (m, cryptor) =
        decrypt cipher server.rpc.memory session.cryptor (buf.start + 2) (sub32 buf.size 2) in
      with_memory
        (record server {
          sessions = set server.sessions client_id (
              update_transmit (record session { cryptor = cryptor }) now
                (signed32 (u32 (buf.size + 1))));
        })
        m

  transmit_accepted-Transmitted :
      (server : TunnelServer State Endpoint Callback) (session : Session State Endpoint)
      (client_id : ℕ) (ip4 : Ip4) (now : ℕ) (buf : Buffer)
      {after : TunnelServer State Endpoint Callback}
      → Consistent server
      → get_elem? server.sessions client_id ≡ some session
      → transmit_accepted cipher server session client_id ip4 now buf ≡ some after
      → Transmitted client_id server after
  unfolding transmit_accepted update_transmit
  transmit_accepted-Transmitted server session client_id ip4 now buf {after} v known h =
      let opened = opened_of server session client_id now buf in
      let updated =
        update_transmit
          (record session {
            cryptor =
                (decrypt cipher server.rpc.memory session.cryptor (buf.start + 2)
                  (sub32 buf.size 2)).1;
          })
          now (signed32 (u32 (buf.size + 1))) in
      let protocol = Ip4.protocol opened.rpc.memory ip4 in
      let kept : Kept server opened = record {
        pool = refl;
        receive_ep = refl;
        if_address = refl;
        rpc_state = (refl, refl);
      } in
      let finish : (middle : TunnelServer State Endpoint Callback)
          → Went opened middle
          → Transmitted client_id server (write_raw middle (buf.start + 2) (sub32 buf.size 2)) =
        λ middle w.
          write_raw-Transmitted client_id (buf.start + 2) (sub32 buf.size 2) server opened middle w
            kept v refl session updated known (refl, refl) refl in
      elim (Bool-cases (ltb buf.size 2)) [
        | inl tiny ↦ absurd (ground (arith, tiny, h))
        | inr enough ↦ elim (Bool-cases (protocol == tcp)) [
          | inl is_tcp ↦ elim (Option-cases (transmit_tcp opened client_id ip4)) [
            | inl failed ↦ absurd (ground (arith, enough, is_tcp, failed))
            | inr (middle, went) ↦
                let is_after : write_raw middle (buf.start + 2) (sub32 buf.size 2) ≡ after =
                  ground (arith, enough, is_tcp, went, h) in
                subst (Transmitted client_id server) is_after
                  (finish middle (transmit_tcp-Went opened client_id ip4 went))
          ]
          | inr not_tcp ↦ elim (Bool-cases (protocol == udp)) [
            | inl is_udp ↦ elim (Option-cases (transmit_udp opened client_id ip4)) [
              | inl failed ↦ absurd (ground (arith, enough, not_tcp, is_udp, failed))
              | inr (middle, went) ↦
                  let is_after : write_raw middle (buf.start + 2) (sub32 buf.size 2) ≡ after =
                    ground (arith, enough, not_tcp, is_udp, went, h) in
                  subst (Transmitted client_id server) is_after
                    (finish middle (transmit_udp-Went opened client_id ip4 went))
            ]
            | inr not_udp ↦
                let is_after : opened ≡ after = ground (arith, enough, not_tcp, not_udp, h) in
                subst (Transmitted client_id server) is_after (record {
                  kept = kept;
                  consistent = v;
                  sessions = inr (session, updated, known, (refl, refl), refl);
                  written = inl refl;
                })
          ]
        ]
      ]

  unchanged-Transmitted :
      (client_id : ℕ) (server : TunnelServer State Endpoint Callback)
      → Consistent server
      → Transmitted client_id server server
  unchanged-Transmitted client_id server v = record {
    kept = record { pool = refl; receive_ep = refl; if_address = refl; rpc_state = (refl, refl) };
    consistent = v;
    sessions = inl refl;
    written = inl refl;
  }

  -- Both tables of connections are consistent. Whatever a datagram holds, when `_processTransmit`
  -- returns, they still are; the pool, the operations of the remote calls and every session but
  -- that of the datagram's number are as before, and that one has the client and the status that it
  -- had; and at most one packet was written.
  pub process_transmit-Transmitted :
      (server : TunnelServer State Endpoint Callback) (now : ℕ) (buf : Buffer)
      {after : TunnelServer State Endpoint Callback}
      → Consistent server
      → process_transmit cipher server now buf ≡ some after
      → Transmitted (load16 server.rpc.memory buf.start) server after
  unfolding process_transmit
  process_transmit-Transmitted server now buf {after} v h =
      let client_id = load16 server.rpc.memory buf.start in
      let ip4 : Ip4 = record { header = buf.start + 2; size = sub32 buf.size 2 } in
      let drop : server ≡ after → Transmitted client_id server after = λ same_state.
        subst (Transmitted client_id server) same_state
          (unchanged-Transmitted client_id server v) in
      elim (Option-cases (get_elem? server.sessions client_id)) [
        | inl unknown ↦ drop (ground (arith, unknown, h))
        | inr (session, known) ↦
            elim (Bool-cases (accepts session server.receive_ep server.rpc.memory ip4)) [
              | inl yes_packet ↦
                  transmit_accepted-Transmitted server session client_id ip4 now buf v known
                    (ground (arith, known, yes_packet, h))
              | inr refused ↦ drop (ground (arith, known, refused, h))
            ]
      ]
