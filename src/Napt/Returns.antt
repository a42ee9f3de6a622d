-- ===== src/Napt/Returns.antt =====
-- `createIfNotExist` ends, and with a connection, where the range of ports is not empty.
use zn_tunnel.Prelude.{ℕ, ◌+◌, ◌^◌, ◌-◌, ◌≤◌, ◌<◌, ◌≡◌, inl, inr, some, arith, Option-cases}
use zn_tunnel.Containers.Order.{Eq}
use zn_tunnel.Napt.{Napt, Connection, existing, create_if_not_exist}
use zn_tunnel.Napt.Ports.{Scanned, found, exhausted, empty_range, scan_ports-Scanned}
use zn_tunnel.Napt.Connections.{connection, register-Registers}

module _ {IpAddress : Type 0} ⦃e : Eq IpAddress⦄ where
  -- The range is not empty, and ends below the last port number.
  pub record HasPorts (n : Napt IpAddress) : Type 0 where
    pub ordered : n.port_from ≤ n.port_to
    pub below : n.port_to < 2 ^ 16 - 1

  module _ (n : Napt IpAddress) (client_id client_port : ℕ) (server_ip : IpAddress)
      (server_port : ℕ) where
    q_in_range :
        (q : ℕ)
        → HasPorts n
        → Scanned n server_ip server_port n.port_from 0 q
        → (n.port_from ≤ q) × (q ≤ n.port_to)
    q_in_range q ports (found f) = (f.from_start, f.to_end)
    q_in_range q ports (exhausted h a e) = ground (arith, ports.ordered, e)
    q_in_range q ports (empty_range h e) = absurd (omega (arith, ports.ordered, h))

    pub create_returns :
        (fuel : ℕ)
        → HasPorts n
        → n.port_to + 1 < n.port_from + fuel
        → 0 < fuel
        → (c : Connection IpAddress) × (n' : Napt IpAddress) × (create_if_not_exist fuel n client_id
              client_port server_ip server_port
            ≡ some (some c, n'))
    unfolding create_if_not_exist
    create_returns fuel ports enough some_fuel =
        elim (Option-cases (existing n client_id client_port server_ip server_port)) [
          | inr (c, old) ↦ (c, n, ground (arith, old))
          | inl new ↦
              let (q, s, scanned) =
                scan_ports-Scanned n server_ip server_port fuel n.port_from 0 ports.below enough
                  some_fuel in
              let (low, high) = q_in_range q ports scanned in
              let (n', made, _) =
                register-Registers n client_id client_port server_ip server_port q low high in
              (
                connection client_id client_port server_ip server_port q,
                n',
                ground (arith, new, s, made),
              )
        ]
