-- ===== src/Tests/Napts.antt =====
-- napt.h: a translator with the ports 64335 to 64336.
use zn_tunnel.Prelude.{ℕ, ◌≡◌, refl, sym, [], ◌∷◌, none, some, true, arith}
use zn_tunnel.Containers.Order.{nat_eq, same_ne}
use zn_tunnel.Containers.HashMap
use zn_tunnel.Containers.OrderedMap
use zn_tunnel.Napt.{
  Napt, Connection, ServerKey, server_eq, server_key_of, client_less, find_server, find_client,
  is_taken, existing, scan_ports, register, create_if_not_exist, remove_client,
}
use zn_tunnel.Napt.Connections.{Registers, connection, create_null, create_again}
use zn_tunnel.Napt.Consistency.{IsConsistent, remove_client-IsConsistent}
use zn_tunnel.Napt.Clients.{OneClient, create_shares_connection, find-assign-OneClient}

-- A web server, and client 3 at its port 5000.
abbrev web : ℕ
web = 0x5db8d822

abbrev fresh : Napt ℕ
fresh = record { port_from = 64335; port_to = 64336; server_map = []; client_map = [] }

abbrev first : Connection ℕ
first = connection 3 5000 web 80 64335

abbrev one : Napt ℕ
one = record fresh {
  server_map = (server_key_of first, first) ∷ [];
  client_map = (record { client_id = 3; client_port = 5000 }, first) ∷ [];
}

abbrev second : Connection ℕ
second = connection 3 5001 web 80 64336

abbrev full : Napt ℕ
full = record fresh {
  server_map = (server_key_of first, first) ∷ (server_key_of second, second) ∷ [];
  client_map =
      (record { client_id = 3; client_port = 5000 }, first)
      ∷ (record { client_id = 3; client_port = 5001 }, second)
      ∷ [];
}

runs :
    (create_if_not_exist 5 fresh 3 5000 web 80 ≡ some (some first, one))
    × (create_if_not_exist 5 one 3 5001 web 80 ≡ some (some second, full))
unfolding create_if_not_exist existing scan_ports register server_key_of OrderedMap.find
    OrderedMap.assign
runs = (refl, refl)

removes : remove_client full 3 ≡ fresh
unfolding remove_client server_key_of
removes = refl

full_first : is_taken full web 80 64335 ≡ true
unfolding is_taken server_key_of
full_first = refl

full_second : is_taken full web 80 64336 ≡ true
unfolding is_taken server_key_of
full_second = refl

abbrev backwards : Napt ℕ
backwards = record fresh { port_from = 64337 }

create_null_example : create_if_not_exist 1 backwards 3 5000 web 80 ≡ some (none, backwards)
create_null_example =
    create_null backwards 3 5000 web 80 1 tt (omega arith) (omega arith) (omega arith) (omega arith)

one-Registers : Registers fresh one first
unfolding find_server find_client client_less server_key_of OrderedMap.find
one-Registers = record {
  ports = (refl, refl);
  by_server = refl;
  by_client = refl;
  others = λ ip port local ne.
      let key : ServerKey ℕ = record { server_ip = ip; server_port = port; local_port = local } in
      rw (same_ne (server_key_of first) key (λ q. ne (sym q)));
}

create_again_example : create_if_not_exist 1 one 3 5000 web 80 ≡ some (some first, one)
create_again_example = create_again fresh 3 5000 web 80 1 64335 one-Registers

fresh-IsConsistent : IsConsistent fresh
fresh-IsConsistent = tt

one-IsConsistent : IsConsistent one
one-IsConsistent = ((refl, omega arith, omega arith), tt)

made_one : create_if_not_exist 5 fresh 3 5000 web 80 ≡ some (some first, one)
made_one = runs.0

remove_client-IsConsistent_example : IsConsistent (remove_client one 3)
remove_client-IsConsistent_example = remove_client-IsConsistent one 3 one-IsConsistent

owner_first : find_server one web 80 64335 ≡ some first
unfolding find_server server_key_of
owner_first = refl

-- Client 4 opens a connection to the same server, and is handed that of client 3.
create_shares_connection_example : create_if_not_exist 5 one 4 6000 web 80 ≡ some (some first, one)
create_shares_connection_example =
    create_shares_connection 5 one (record { client_id = 3; client_port = 5000 }) first 4 6000 refl
      (omega arith)

full-OneClient : OneClient 3 full.client_map
full-OneClient = omega arith

abbrev large : Napt ℕ
large = record fresh {
  client_map =
      (record { client_id = 259; client_port = 5000 }, connection 259 5000 web 80 64335) ∷ [];
}

find-assign-OneClient_example :
    OrderedMap.find client_less
      (record { client_id = 3; client_port = 5001 })
      (OrderedMap.assign client_less
        (record { client_id = 3; client_port = 5002 })
        second
        full.client_map)
    ≡ some second
unfolding OrderedMap.find client_less
find-assign-OneClient_example =
    find-assign-OneClient 3 5002 5001 second full.client_map full-OneClient
