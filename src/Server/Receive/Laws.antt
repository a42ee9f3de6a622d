-- ===== src/Server/Receive/Laws.antt =====
-- What server/TunnelServer.cc leaves as it was while it gives a datagram to its handler.
use zn_tunnel.Prelude.{
  ℕ, ◌≡◌, refl, inl, inr, Bool, ◌||◌, some, arith, subst, sym, Bool-cases, Option-cases, Option,
  ◌==◌,
}
use zn_tunnel.Memory.{Memory}
use zn_tunnel.Buffer.{Buffer}
use zn_tunnel.Pool.{Pool}
use zn_tunnel.Containers.Order.{Eq}
use zn_tunnel.Transmission.Constant.{command_code, transmit, request, reply}
use zn_tunnel.Transmission.Cryptor.{Cipher}
use zn_tunnel.Transmission.Rpc.State.{Answer}
use zn_tunnel.Transmission.Rpc.Handler.{feed}
use zn_tunnel.Server.State.{TunnelServer}
use zn_tunnel.Server.Forward.Went.{Consistent}
use zn_tunnel.Server.Forward.Effects.{Transmitted, process_transmit-Transmitted}
use zn_tunnel.Server.Table.{Unmoved, set-Unmoved}
use zn_tunnel.Server.Receive.{dispatch_datagram}

module _ {State Endpoint Callback : Type 0} where
  Transmitted-Unmoved :
      {client_id : ℕ} {server after : TunnelServer State Endpoint Callback}
      → Transmitted client_id server after
      → Unmoved server.sessions after.sessions
  Transmitted-Unmoved {client_id} {server} {after} t = elim t.sessions [
    | inl same_sessions ↦ subst (Unmoved server.sessions) (sym same_sessions) (refl, refl)
    | inr (old, s, known, same_client, changed) ↦
        set-Unmoved server.sessions client_id old s known same_client changed
  ]

module _ {State Endpoint Callback : Type 0} (cipher : Cipher State) ⦃e : Eq Endpoint⦄
    (endpoint_less : Endpoint → Endpoint → Bool)
    (on_request : Memory → Buffer → Endpoint → ℕ → Answer Callback) where
  -- Both tables of connections stay consistent, and the sessions have the clients that they had.
  pub dispatch_datagram_lem :
      (server : TunnelServer State Endpoint Callback) (command now control : ℕ)
      (callback_pool : Option Pool) (buf : Buffer) {after : TunnelServer State Endpoint Callback}
      → Consistent server
      → dispatch_datagram cipher endpoint_less on_request server command now control callback_pool
          buf
        ≡ some after
      → Consistent after × Unmoved server.sessions after.sessions
  unfolding dispatch_datagram
  dispatch_datagram_lem server command now control callback_pool buf {after} v h =
      elim (Bool-cases (command == command_code transmit)) [
        | inl is_transmit ↦
            let t =
              process_transmit-Transmitted cipher server now buf {after = after} v
                (ground (arith, is_transmit, h)) in
            (t.consistent, Transmitted-Unmoved t)
        | inr not_transmit ↦
            elim (Bool-cases (command == command_code reply || command == command_code request)) [
              | inl is_rpc ↦
                  elim (Option-cases (
                    feed cipher endpoint_less on_request server.rpc control server.receive_ep
                      buf)) [
                        | inl failed_feed ↦
                            absurd (ground (arith, not_transmit, is_rpc, failed_feed, h))
                        | inr (rpc, fed) ↦ elim (Option-cases callback_pool) [
                          | inl thrown ↦
                              absurd (ground (arith, not_transmit, is_rpc, fed, thrown, h))
                          | inr (pool, left) ↦
                              let is_after : record server { rpc = rpc; pool = pool } ≡ after =
                                ground (arith, not_transmit, is_rpc, fed, left, h) in
                              subst
                                (λ (s : TunnelServer State Endpoint Callback).
                                  Consistent s × Unmoved server.sessions s.sessions)
                                is_after (v, (refl, refl))
                        ]
                      ]
              | inr other ↦
                  let is_after : server ≡ after = ground (arith, not_transmit, other, h) in
                  subst
                    (λ (s : TunnelServer State Endpoint Callback).
                      Consistent s × Unmoved server.sessions s.sessions)
                    is_after (v, (refl, refl))
            ]
      ]
