-- ===== src/Server/Forward/Went.antt =====
-- What the translation of a packet leaves alone.
use zn_tunnel.Prelude.{ℕ, ◌≡◌, refl, inl, inr, none, some, arith, subst, Option-cases}
use zn_tunnel.Containers.Order.{nat_eq}
use zn_tunnel.Napt.{create_if_not_exist}
use zn_tunnel.Napt.Consistency.{IsConsistent, create-IsConsistent}
use zn_tunnel.Protocol.Ip4
use zn_tunnel.Protocol.Ip4.{Ip4}
use zn_tunnel.Protocol.Tcp
use zn_tunnel.Protocol.Udp
use zn_tunnel.Server.State.{TunnelServer}
use zn_tunnel.Server.Forward.{carry_fuel, port_fuel, transmit_tcp, transmit_udp, with_memory}

module _ {State Endpoint Callback : Type 0} where
  -- What a packet of a client leaves alone.
  pub record Kept (before after : TunnelServer State Endpoint Callback) : Type 0 where
    pub pool : after.pool ≡ before.pool
    pub receive_ep : after.receive_ep ≡ before.receive_ep
    pub if_address : after.if_address ≡ before.if_address
    pub rpc_state :
        (after.rpc.pending ≡ before.rpc.pending) × (after.rpc.controls ≡ before.rpc.controls)

  abbrev pub Consistent : TunnelServer State Endpoint Callback → Type 0
  Consistent server = IsConsistent server.tcp_napt × IsConsistent server.udp_napt

  -- What the translation of a packet leaves alone.
  pub record Went (before after : TunnelServer State Endpoint Callback) : Type 0 where
    pub kept : Kept before after
    pub consistent : Consistent before → Consistent after
    pub sessions : after.sessions ≡ before.sessions
    pub requests : after.requests ≡ before.requests

  pub transmit_tcp-Went :
      (server : TunnelServer State Endpoint Callback) (client_id : ℕ) (ip4 : Ip4)
      {after : TunnelServer State Endpoint Callback}
      → transmit_tcp server client_id ip4 ≡ some after
      → Went server after
  unfolding transmit_tcp
  transmit_tcp-Went server client_id ip4 {after} h =
      let m = server.rpc.memory in
      let segment = Tcp.tcp_of_ip4 m ip4 in
      elim (Option-cases (
        create_if_not_exist port_fuel server.tcp_napt client_id (Tcp.source_port m segment)
          (Ip4.dest_ip m ip4) (Tcp.dest_port m segment))) [
            | inl endless ↦ absurd (ground (arith, endless))
            | inr ((none, napt), created) ↦ absurd (ground (arith, created))
            | inr ((some conn, napt), created) ↦
                let sourced =
                  Ip4.set_source_ip (Tcp.set_source_port m segment conn.client_port) ip4
                    server.if_address in
                elim (Option-cases (Tcp.calculate_checksum_inplace carry_fuel sourced segment)) [
                  | inl endless ↦ absurd (ground (arith, created, endless))
                  | inr (summed, e1) ↦
                      elim (Option-cases (Ip4.calculate_checksum_inplace carry_fuel summed ip4)) [
                        | inl endless ↦ absurd (ground (arith, created, e1, endless))
                        | inr (final, e2) ↦
                            let is_after : with_memory (record server { tcp_napt = napt }) final
                                ≡ after =
                              ground (arith, created, e1, e2, h) in
                            subst (Went server) is_after (record {
                              kept = record {
                                pool = refl;
                                receive_ep = refl;
                                if_address = refl;
                                rpc_state = (refl, refl);
                              };
                              consistent = λ v. (
                                create-IsConsistent port_fuel server.tcp_napt client_id _ _ _ v.0
                                    created,
                                v.1,
                              );
                              sessions = refl;
                              requests = refl;
                            })
                      ]
                ]
          ]

  pub transmit_udp-Went :
      (server : TunnelServer State Endpoint Callback) (client_id : ℕ) (ip4 : Ip4)
      {after : TunnelServer State Endpoint Callback}
      → transmit_udp server client_id ip4 ≡ some after
      → Went server after
  unfolding transmit_udp
  transmit_udp-Went server client_id ip4 {after} h =
      let m = server.rpc.memory in
      let datagram = Udp.udp_of_ip4 m ip4 in
      elim (Option-cases (
        create_if_not_exist port_fuel server.udp_napt client_id (Udp.source_port m datagram)
          (Ip4.dest_ip m ip4) (Udp.dest_port m datagram))) [
            | inl endless ↦ absurd (ground (arith, endless))
            | inr ((none, napt), created) ↦ absurd (ground (arith, created))
            | inr ((some conn, napt), created) ↦
                let sourced =
                  Ip4.set_source_ip (Udp.set_source_port m datagram conn.client_port) ip4
                    server.if_address in
                let summed = Udp.set_checksum sourced datagram 0 in
                elim (Option-cases (Ip4.calculate_checksum_inplace carry_fuel summed ip4)) [
                  | inl endless ↦ absurd (ground (arith, created, endless))
                  | inr (final, e2) ↦
                      let is_after : with_memory (record server { udp_napt = napt }) final ≡ after =
                        ground (arith, created, e2, h) in
                      subst (Went server) is_after (record {
                        kept = record {
                          pool = refl;
                          receive_ep = refl;
                          if_address = refl;
                          rpc_state = (refl, refl);
                        };
                        consistent = λ v. (
                          v.0,
                          create-IsConsistent port_fuel server.udp_napt client_id _ _ _ v.1 created,
                        );
                        sessions = refl;
                        requests = refl;
                      })
                ]
          ]
