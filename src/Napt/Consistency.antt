-- ===== src/Napt/Consistency.antt =====
-- The server map stays consistent: what its operations may store.
use zn_tunnel.Prelude.{
  ℕ, ◌≤◌, ◌≡◌, refl, subst, inl, inr, ◌||◌, Option, some, arith, Bool-cases, Option-cases, All,
  List, [], ◌∷◌, ltb, ◌==◌, u8,
}
use zn_tunnel.Containers.Order.{Eq}
use zn_tunnel.Containers.HashMap
use zn_tunnel.Napt.{
  Napt, Connection, ServerKey, ClientKey, server_eq, server_key_of, existing, scan_ports, register,
  create_if_not_exist, remove_from, remove_client,
}

module _ {IpAddress : Type 0} ⦃e : Eq IpAddress⦄ where
  -- Every entry of the server map stands under the key of its connection, at a port of the range.
  abbrev pub IsEntry : ℕ → ℕ → ServerKey IpAddress × Connection IpAddress → Type 0
  IsEntry port_from port_to entry =
      (entry.0 ≡ server_key_of entry.1)
      × (port_from ≤ entry.1.local_port)
      × (entry.1.local_port ≤ port_to)

  abbrev pub IsConsistent : Napt IpAddress → Type 0
  IsConsistent n = All (IsEntry n.port_from n.port_to) n.server_map

  register-IsConsistent :
      (n : Napt IpAddress) (client_id client_port : ℕ) (server_ip : IpAddress)
      (server_port local_port : ℕ)
      → IsConsistent n
      → IsConsistent (register n client_id client_port server_ip server_port local_port).1
  unfolding register server_key_of
  register-IsConsistent n client_id client_port server_ip server_port local_port v =
      elim (Bool-cases (ltb local_port n.port_from || ltb n.port_to local_port)) [
        | inl out ↦ rw out v
        | inr inside ↦ rw inside (
            HashMap.All-assign (IsEntry n.port_from n.port_to) _ _ n.server_map
              (refl, ground (arith, inside), ground (arith, inside)) v)
      ]

  -- `createIfNotExist` keeps the server map consistent, whatever it returns.
  pub create-IsConsistent :
      (fuel : ℕ) (n : Napt IpAddress) (client_id client_port : ℕ) (server_ip : IpAddress)
      (server_port : ℕ) {out : Option (Connection IpAddress)} {n' : Napt IpAddress}
      → IsConsistent n
      → create_if_not_exist fuel n client_id client_port server_ip server_port ≡ some (out, n')
      → IsConsistent n'
  unfolding create_if_not_exist
  create-IsConsistent fuel n client_id client_port server_ip server_port {out} {n'} v h =
      elim (Option-cases (existing n client_id client_port server_ip server_port)) [
        | inr (c, old) ↦
            let same_state : n ≡ n' = ground (arith, old) in subst IsConsistent same_state v
        | inl new ↦ elim (Option-cases (scan_ports n server_ip server_port fuel n.port_from 0)) [
          | inl endless ↦ absurd (ground (arith, new, endless))
          | inr (q, s) ↦
              let next_state : (register n client_id client_port server_ip server_port q).1 ≡ n' =
                ground (arith, new, s) in
              subst IsConsistent next_state
                (register-IsConsistent n client_id client_port server_ip server_port q v)
        ]
      ]

  remove_from-All {ℓ} :
      (P : ServerKey IpAddress × Connection IpAddress → Type ℓ) (client_id : ℕ)
      (servers : List (ServerKey IpAddress × Connection IpAddress))
      (entries : List (ClientKey × Connection IpAddress))
      → All P servers
      → All P (remove_from client_id servers entries).0
  unfolding remove_from
  remove_from-All P client_id servers [] a = a
  remove_from-All P client_id servers ((k, c) ∷ rest) a =
      elim (Bool-cases (k.client_id == client_id)) [
        | inl own ↦ rw own (
            remove_from-All P client_id (HashMap.erase (server_key_of c) servers) rest
              (HashMap.All-erase P (server_key_of c) servers a))
        | inr other ↦ rw other a
      ]

  -- So does `removeClient`.
  pub remove_client-IsConsistent :
      (n : Napt IpAddress) (client_id : ℕ)
      → IsConsistent n
      → IsConsistent (remove_client n client_id)
  unfolding remove_client
  remove_client-IsConsistent n client_id v =
      remove_from-All (IsEntry n.port_from n.port_to) (u8 client_id) n.server_map _ v
