-- ===== src/Napt/Clients.antt =====
-- The client map: `ClientKey::operator <` orders the ports of one client, and takes any two clients
-- for one another.
use mathlib.Core.List.{append-nil}
use zn_tunnel.Prelude.{
  ℕ, ◌^◌, ◌≤◌, ◌<◌, ◌≡◌, refl, ◌≢◌, none, some, arith, All, List, [], ◌∷◌, ◌==◌, u8, if◌then◌else◌,
}
use zn_tunnel.Containers.Order.{Eq, StrictOrder, same_refl}
use zn_tunnel.Containers.HashMap
use zn_tunnel.Containers.OrderedMap
use zn_tunnel.Napt.{
  Napt, Connection, ServerKey, ClientKey, client_less, server_eq, server_key_of, find_client,
  existing, create_if_not_exist, remove_from, remove_client, upper_bound,
}

-- The comparison is no strict order: two clients are never told apart.
pub client_less_not_order : ¬ StrictOrder client_less
unfolding client_less
client_less_not_order o =
    let a : ClientKey = record { client_id = 1; client_port = 5 } in
    let b : ClientKey = record { client_id = 2; client_port = 5 } in
    absurd (ground (arith, o.total a b refl refl))

-- Every key is one of this client.
abbrev pub OneClient {κ} : {V : Type κ} → ℕ → List (ClientKey × V) → Type 0
OneClient id [] = Unit
OneClient id ((k, v) ∷ m) = (k.client_id ≡ id) × (0 < k.client_port) × OneClient id m

-- Among the keys of one client the map is a map: what is stored at one port changes no other.
pub find-assign-OneClient :
    {V : Type 0} (id p q : ℕ) (v : V) (m : List (ClientKey × V))
    → OneClient id m
    → OrderedMap.find client_less
        (record { client_id = id; client_port = q })
        (OrderedMap.assign client_less (record { client_id = id; client_port = p }) v m)
      ≡ (if p == q
          then some v
          else OrderedMap.find client_less (record { client_id = id; client_port = q }) m)
unfolding OrderedMap.find OrderedMap.assign client_less
find-assign-OneClient id p q v [] h = ground arith
find-assign-OneClient id p q v ((k, w) ∷ m) h = ground (arith, find-assign-OneClient id p q v m h.2)

upper_bound-other {κ} :
    {V : Type κ} (id other : ℕ) (m : List (ClientKey × V))
    → id ≢ other
    → OneClient id m
    → upper_bound (record { client_id = other; client_port = 0 }) m ≡ (m, [])
unfolding upper_bound client_less
upper_bound-other id other [] ne h = refl
upper_bound-other id other ((k, v) ∷ m) ne h = ground (arith, upper_bound-other id other m ne h.2)

module _ {IpAddress : Type 0} ⦃e : Eq IpAddress⦄ where
  -- A client map that holds one connection, of one client, gives it to every other client.
  find_client_of_other :
      (n : Napt IpAddress) (k : ClientKey) (c : Connection IpAddress) (id port : ℕ)
      → n.client_map ≡ (k, c) ∷ []
      → k.client_id ≢ id
      → find_client n id port ≡ some c
  unfolding find_client OrderedMap.find
  find_client_of_other n k c id port h ne = rw h (ground arith)

  -- A table holds one connection, of some client. Another client that asks for a connection to
  -- the same server is handed that one, whatever its own port, and nothing is recorded for it.
  pub create_shares_connection :
      (fuel : ℕ) (n : Napt IpAddress) (k : ClientKey) (c : Connection IpAddress) (id port : ℕ)
      → n.client_map ≡ (k, c) ∷ []
      → k.client_id ≢ id
      → create_if_not_exist fuel n id port c.server_ip c.server_port ≡ some (some c, n)
  unfolding create_if_not_exist existing
  create_shares_connection fuel n k c id port h ne =
      ground (arith, find_client_of_other n k c id port h ne, same_refl c.server_ip)

  -- The loop of `removeClient` over `m` left these maps: no entry, and no server's key of `m`.
  abbrev Removes :
      List (ServerKey IpAddress × Connection IpAddress)
      → List (ClientKey × Connection IpAddress)
      → List (ServerKey IpAddress × Connection IpAddress) × List (ClientKey × Connection IpAddress)
      → Type 0
  Removes servers m removed =
      (removed.1 ≡ [])
      × All (λ entry. HashMap.find (server_key_of entry.1) removed.0 ≡ none) m
      × ((k : ServerKey IpAddress)
          → HashMap.find k servers ≡ none
          → HashMap.find k removed.0 ≡ none)

  -- A client number that does not fit a byte is cut, so that no connection of its client is removed.
  pub remove_client_cut :
      (n : Napt IpAddress) (id : ℕ)
      → 2 ^ 8 ≤ id
      → OneClient id n.client_map
      → remove_client n id ≡ n
  unfolding remove_client remove_from
  remove_client_cut n id h own =
      rw (upper_bound-other id (u8 id) n.client_map (omega arith) own) (rw append-nil)
