-- ===== src/Napt/Unconnected.antt =====
-- Clients that have no connection to a server, libtun/include/libtun/napt.h, told by the entries of the
-- client map and not by a search.
use zn_tunnel.Prelude.{
  ℕ, ◌≡◌, ◌≢◌, ◌⊎◌, inl, inr, ◌&&◌, none, some, List, [], ◌∷◌, arith, All, ◌==◌, Option-cases,
  Bool-cases,
}
use zn_tunnel.Containers.Order.{Eq, same}
use zn_tunnel.Containers.OrderedMap
use zn_tunnel.Napt.{Napt, Connection, ClientKey, client_less, find_client, existing}

module _ {IpAddress : Type 0} (client_id client_port : ℕ) (server_ip : IpAddress)
    (server_port : ℕ) where
  -- An entry of the client itself from another port, or of a connection to another server or port.
  abbrev pub IsElsewhere : ClientKey × Connection IpAddress → Type 0
  IsElsewhere entry =
      ((entry.0.client_id ≡ client_id) × (entry.0.client_port ≢ client_port))
      ⊎ ((entry.1.server_ip ≢ server_ip) ⊎ (entry.1.server_port ≢ server_port))

  -- The client has no connection from its port to the port of the server, and no other client has one
  -- to it.
  abbrev pub IsUnconnected : Napt IpAddress → Type 0
  IsUnconnected n = All IsElsewhere n.client_map

  find_elsewhere :
      (m : List (ClientKey × Connection IpAddress)) {c : Connection IpAddress}
      → All IsElsewhere m
      → OrderedMap.find client_less (record { client_id = client_id; client_port = client_port }) m
        ≡ some c
      → (c.server_ip ≢ server_ip) ⊎ (c.server_port ≢ server_port)
  unfolding OrderedMap.find client_less
  find_elsewhere [] a h = absurd (ground (arith, h))
  find_elsewhere ((k, v) ∷ m) {c} a h = grind (arith, a, h, find_elsewhere m {c = c} a.1)

module _ {IpAddress : Type 0} ⦃e : Eq IpAddress⦄ where
  pub existing-none :
      (n : Napt IpAddress) (client_id client_port : ℕ) (server_ip : IpAddress) (server_port : ℕ)
      → IsUnconnected client_id client_port server_ip server_port n
      → existing n client_id client_port server_ip server_port ≡ none
  unfolding existing find_client
  existing-none n client_id client_port server_ip server_port a =
      elim (Option-cases (find_client n client_id client_port)) [
        | inl gone ↦ ground (arith, gone)
        | inr (c, at) ↦
            elim (Bool-cases (same c.server_ip server_ip && c.server_port == server_port)) [
              | inr other ↦ ground (arith, at, other)
              | inl here ↦
                  let elsewhere =
                    find_elsewhere client_id client_port server_ip server_port n.client_map a at in
                  absurd (ground (arith, here, elsewhere, e.same_iff c.server_ip server_ip))
            ]
      ]
