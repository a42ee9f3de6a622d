-- ===== src/Napt.antt =====
-- `class NAPT` of libtun/include/libtun/napt.h, for any type of IP addresses. Connections are
-- written once, when they are made, so that the maps hold them by value; the `stateMachine` of a
-- connection is never set or read, and is left out.
pub mod Ports
pub mod Unconnected
pub mod Connections
pub mod Consistency
pub mod Clients
pub mod Returns
pub mod Hashes
use zn_tunnel.Prelude.{
  ℕ, zero, suc, ◌+◌, Bool, true, false, ◌&&◌, ◌||◌, not, List, [], ◌∷◌, ◌++◌, Option, none, some,
  if◌then◌else◌, ltb, leb, ◌==◌, u8, u16, ◌≡◌, ◌↔◌, arith, ==_iff,
}
use zn_tunnel.Containers.Order.{Eq, same}
use zn_tunnel.Containers.HashMap
use zn_tunnel.Containers.OrderedMap

pub record Connection (IpAddress : Type 0) : Type 0 where
  pub server_ip : IpAddress
  pub server_port : ℕ
  pub client_id : ℕ
  pub client_port : ℕ
  pub local_port : ℕ

pub record ServerKey (IpAddress : Type 0) : Type 0 where
  pub server_ip : IpAddress
  pub server_port : ℕ
  pub local_port : ℕ

pub record ClientKey : Type 0 where
  pub client_id : ℕ
  pub client_port : ℕ

-- `ClientKey::operator <`, as it is written.
unfoldable pub client_less : ClientKey → ClientKey → Bool
client_less a b =
    if a.client_id == b.client_id
    then ltb a.client_port b.client_port
    else a.client_id == b.client_id

module _ {IpAddress : Type 0} ⦃e : Eq IpAddress⦄ where
  -- `ServerKey::operator ==`.
  unfoldable pub server_same : ServerKey IpAddress → ServerKey IpAddress → Bool
  server_same a b =
      same a.server_ip b.server_ip && a.server_port == b.server_port && a.local_port == b.local_port

  pub server_same_iff : (a b : ServerKey IpAddress) → (server_same a b ≡ true) ↔ (a ≡ b)
  unfolding server_same
  server_same_iff a b = ground (arith, e.same_iff a.server_ip b.server_ip)

  instance abbrev pub server_eq : Eq (ServerKey IpAddress)
  server_eq = record { same = server_same; same_iff = server_same_iff }

pub record Napt (IpAddress : Type 0) : Type 0 where
  pub port_from : ℕ
  pub port_to : ℕ
  pub server_map : List (ServerKey IpAddress × Connection IpAddress)
  pub client_map : List (ClientKey × Connection IpAddress)

-- The entries from `upper_bound(k)` on, behind those before it.
unfoldable pub upper_bound {κ} :
    {V : Type κ} → ClientKey → List (ClientKey × V) → List (ClientKey × V) × List (ClientKey × V)
unfolding client_less
upper_bound k [] = ([], [])
upper_bound k ((j, v) ∷ m) =
    let (front, back) = upper_bound k m in
    if client_less k j then ([], (j, v) ∷ m) else ((j, v) ∷ front, back)

-- `NAPT(from, to)`.
unfoldable pub new_napt : (IpAddress : Type 0) → ℕ → ℕ → Napt IpAddress
new_napt IpAddress port_from port_to = record {
  port_from = port_from;
  port_to = port_to;
  server_map = [];
  client_map = [];
}

module _ {IpAddress : Type 0} where
  -- `NAPT(other)`: a copy has the ports and none of the connections.
  unfoldable pub copy_napt : Napt IpAddress → Napt IpAddress
  copy_napt other = record other { server_map = []; client_map = [] }

  unfoldable pub server_key_of : Connection IpAddress → ServerKey IpAddress
  server_key_of c = record {
    server_ip = c.server_ip;
    server_port = c.server_port;
    local_port = c.local_port;
  }

  -- `find(clientID, clientPort)`; `none` is a null pointer.
  unfoldable pub find_client : Napt IpAddress → ℕ → ℕ → Option (Connection IpAddress)
  unfolding client_less
  find_client n client_id client_port =
      OrderedMap.find client_less (record { client_id = client_id; client_port = client_port })
        n.client_map

module _ {IpAddress : Type 0} ⦃e : Eq IpAddress⦄ where
  -- `find(serverIP, serverPort, localPort)`.
  unfoldable pub find_server : Napt IpAddress → IpAddress → ℕ → ℕ → Option (Connection IpAddress)
  unfolding HashMap.find server_same
  find_server n server_ip server_port local_port =
      HashMap.find
        (record { server_ip = server_ip; server_port = server_port; local_port = local_port })
        n.server_map

  unfoldable pub is_taken : Napt IpAddress → IpAddress → ℕ → ℕ → Bool
  unfolding find_server
  is_taken n server_ip server_port p = elim (find_server n server_ip server_port p) [
    | none ↦ false
    | some c ↦ true
  ]

  -- `for (uint16_t p = _portFrom; p <= _portTo; p++)` at `p`, with the `sk.localPort` so far: the
  -- `sk.localPort` after the loop. `none` is fuel that ran out.
  unfoldable pub scan_ports : Napt IpAddress → IpAddress → ℕ → ℕ → ℕ → ℕ → Option ℕ
  unfolding is_taken
  scan_ports n server_ip server_port zero p local_port = none
  scan_ports n server_ip server_port (suc fuel) p local_port =
      let rest = scan_ports n server_ip server_port fuel (u16 (p + 1)) p in
      if leb p n.port_to
      then (if is_taken n server_ip server_port p then rest else some p)
      else some local_port

  -- The connection that the client has already, if it is one to the same server.
  unfoldable pub existing : Napt IpAddress → ℕ → ℕ → IpAddress → ℕ → Option (Connection IpAddress)
  unfolding find_client
  existing n client_id client_port server_ip server_port =
      elim (find_client n client_id client_port) [
        | none ↦ none
        | some c ↦
            if same c.server_ip server_ip && c.server_port == server_port then some c else none
      ]

  -- What happens once `sk.localPort` is known.
  unfoldable pub register :
      Napt IpAddress → ℕ → ℕ → IpAddress → ℕ → ℕ → Option (Connection IpAddress) × Napt IpAddress
  unfolding HashMap.assign server_same client_less
  register n client_id client_port server_ip server_port local_port =
      let c : Connection IpAddress = record {
        server_ip = server_ip;
        server_port = server_port;
        client_id = client_id;
        client_port = client_port;
        local_port = local_port;
      } in
      if ltb local_port n.port_from || ltb n.port_to local_port then (none, n) else (
        some c,
        record n {
          server_map =
              HashMap.assign
                (record {
                  server_ip = server_ip;
                  server_port = server_port;
                  local_port = local_port;
                })
                c n.server_map;
          client_map =
              OrderedMap.assign client_less
                (record { client_id = client_id; client_port = client_port }) c n.client_map;
        },
      )

  -- `none` is a loop whose fuel ran out; the inner option is the pointer that is returned. The
  -- members of `sk` that its initializer does not name are zero.
  unfoldable pub create_if_not_exist :
      ℕ
      → Napt IpAddress
      → ℕ
      → ℕ
      → IpAddress
      → ℕ
      → Option (Option (Connection IpAddress) × Napt IpAddress)
  create_if_not_exist fuel n client_id client_port server_ip server_port =
      elim (existing n client_id client_port server_ip server_port) [
        | some c ↦ some (some c, n)
        | none ↦ elim (scan_ports n server_ip server_port fuel n.port_from 0) [
          | none ↦ none
          | some local_port ↦
              some (register n client_id client_port server_ip server_port local_port)
        ]
      ]

  -- The loop of `removeClient`, from an iterator on: what is left of the two maps.
  unfoldable pub remove_from :
      ℕ
      → List (ServerKey IpAddress × Connection IpAddress)
      → List (ClientKey × Connection IpAddress)
      → List (ServerKey IpAddress × Connection IpAddress) × List (ClientKey × Connection IpAddress)
  unfolding server_key_of HashMap.erase server_same
  remove_from client_id servers [] = (servers, [])
  remove_from client_id servers ((k, c) ∷ rest) =
      let removed = remove_from client_id (HashMap.erase (server_key_of c) servers) rest in
      if k.client_id == client_id then removed else (servers, (k, c) ∷ rest)

  -- The argument is cut to `uint8_t`.
  unfoldable pub remove_client : Napt IpAddress → ℕ → Napt IpAddress
  unfolding remove_from upper_bound
  remove_client n client_id =
      let id = u8 client_id in
      let (front, back) = upper_bound (record { client_id = id; client_port = 0 }) n.client_map in
      let (servers, left) = remove_from id n.server_map back in
      record n { server_map = servers; client_map = front ++ left }
