-- ===== src/Napt/Connections.antt =====
-- `createIfNotExist`: which connection it returns, and what it changes.
use zn_tunnel.Prelude.{
  ℕ, ◌+◌, ◌-◌, ◌^◌, ◌≤◌, ◌<◌, ◌≡◌, refl, sym, ◌≢◌, ap, ◌∙◌, false, none, some, arith,
}
use zn_tunnel.Containers.Order.{Eq, same_refl}
use zn_tunnel.Containers.HashMap
use zn_tunnel.Containers.OrderedMap
use zn_tunnel.Napt.{
  Napt, Connection, ServerKey, ClientKey, server_eq, client_less, server_key_of, find_server,
  find_client, existing, scan_ports, register, create_if_not_exist,
}
use zn_tunnel.Napt.Unconnected.{IsUnconnected, existing-none}
use zn_tunnel.Napt.Ports.{Scanned, found, exhausted, empty_range, scan_ports-Scanned}

client_less_irrefl : (k : ClientKey) → client_less k k ≡ false
unfolding client_less
client_less_irrefl k = ground arith

module _ {IpAddress : Type 0} ⦃e : Eq IpAddress⦄ where
  -- What a `createIfNotExist` that makes a connection leaves behind: the connection goes by the
  -- server's key and by the client's, and no other key of a server is touched.
  pub record Registers (n n' : Napt IpAddress) (c : Connection IpAddress) : Type 0 where
    pub ports : (n'.port_from ≡ n.port_from) × (n'.port_to ≡ n.port_to)
    pub by_server : find_server n' c.server_ip c.server_port c.local_port ≡ some c
    pub by_client : find_client n' c.client_id c.client_port ≡ some c
    pub others :
        (ip : IpAddress) (port local : ℕ)
        → ◌≢◌ {A = ServerKey IpAddress}
            (record { server_ip = ip; server_port = port; local_port = local })
            (server_key_of c)
        → find_server n' ip port local ≡ find_server n ip port local

  -- The connection of these five fields.
  abbrev pub connection : ℕ → ℕ → IpAddress → ℕ → ℕ → Connection IpAddress
  connection client_id client_port server_ip server_port local_port = record {
    server_ip = server_ip;
    server_port = server_port;
    client_id = client_id;
    client_port = client_port;
    local_port = local_port;
  }

  module _ (n : Napt IpAddress) (client_id client_port : ℕ) (server_ip : IpAddress)
      (server_port : ℕ) where
    pub register-Registers :
        (local_port : ℕ)
        → n.port_from ≤ local_port
        → local_port ≤ n.port_to
        → (n' : Napt IpAddress) × (register n client_id client_port server_ip server_port local_port
            ≡ (some (connection client_id client_port server_ip server_port local_port), n'))
          × Registers n n' (connection client_id client_port server_ip server_port local_port)
    unfolding register find_server find_client server_key_of
    register-Registers local_port lo hi =
        let c = connection client_id client_port server_ip server_port local_port in
        let sk : ServerKey IpAddress = record {
          server_ip = server_ip;
          server_port = server_port;
          local_port = local_port;
        } in
        let ck : ClientKey = record { client_id = client_id; client_port = client_port } in
        (
          record n {
            server_map = HashMap.assign sk c n.server_map;
            client_map = OrderedMap.assign client_less ck c n.client_map;
          },
          ground arith,
          record {
            ports = (refl, refl);
            by_server = HashMap.find-assign_self sk c n.server_map;
            by_client =
                OrderedMap.find-assign_self client_less ck c n.client_map (client_less_irrefl ck);
            others = λ ip port local ne.
                HashMap.find-assign_ne sk
                  (record { server_ip = ip; server_port = port; local_port = local }) c n.server_map
                  (λ q. ne (sym q));
          },
        )

    -- The loop of a range below the last port number, and what comes of it.
    module _ (fuel : ℕ) (unconnected : IsUnconnected client_id client_port server_ip server_port n)
        (below : n.port_to < 2 ^ 16 - 1) (enough : n.port_to + 1 < n.port_from + fuel)
        (some_fuel : 0 < fuel) where
      create_of_scan :
          (q : ℕ)
          → scan_ports n server_ip server_port fuel n.port_from 0 ≡ some q
          → create_if_not_exist fuel n client_id client_port server_ip server_port
            ≡ some (register n client_id client_port server_ip server_port q)
      unfolding create_if_not_exist
      create_of_scan q s =
          let new = existing-none n client_id client_port server_ip server_port unconnected in
          ground (arith, new, s)

      -- A null pointer comes of an empty range, and then nothing is changed.
      pub create_null :
          n.port_to < n.port_from
          → create_if_not_exist fuel n client_id client_port server_ip server_port ≡ some (none, n)
      create_null order =
          let (q, s, scanned) =
            scan_ports-Scanned n server_ip server_port fuel n.port_from 0 below enough some_fuel in
          create_of_scan q s ∙ ap some (refused q scanned)
        where
          at_zero :
              (q : ℕ) → q ≡ 0 → register n client_id client_port server_ip server_port q ≡ (none, n)
          at_zero q z = unfold register in ground arith

          refused :
              (q : ℕ)
              → Scanned n server_ip server_port n.port_from 0 q
              → register n client_id client_port server_ip server_port q ≡ (none, n)
          refused q (found f) = absurd (omega (arith, f.from_start, f.to_end))
          refused q (exhausted h a e) = absurd (omega arith)
          refused q (empty_range h e) = at_zero q e

    -- A second call with the same arguments returns the connection that the first made, and
    -- changes nothing.
    pub create_again :
        (fuel local_port : ℕ) {n' : Napt IpAddress}
        → Registers n n' (connection client_id client_port server_ip server_port local_port)
        → create_if_not_exist fuel n' client_id client_port server_ip server_port
          ≡ some (some (connection client_id client_port server_ip server_port local_port), n')
    unfolding create_if_not_exist existing
    create_again fuel local_port reg = ground (arith, reg.by_client, same_refl server_ip)
