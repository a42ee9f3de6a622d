-- ===== src/Tests/Runs.antt =====
-- TunnelServer.cc: a client logs in at a new server, and sends a packet that is answered.
use zn_tunnel.Prelude.{
  ℕ, ◌≡◌, ◌≢◌, ◌⊎◌, ◌+◌, refl, ap, ltb, List, [], ◌∷◌, ◌++◌, some, arith, length,
}
use zn_tunnel.Memory.{Memory, store, store_list, store16, load16, load_list, load32, store32}
use zn_tunnel.Buffer.{Buffer}
use zn_tunnel.Containers.Order.{nat_eq}
use zn_tunnel.Containers.OrderedMap
use zn_tunnel.Napt.{new_napt, existing, scan_ports, register}
use zn_tunnel.Protocol.Checksum.{fold_carries, add_words, rounds, complement}
use zn_tunnel.Transmission.Constant.{success}
use zn_tunnel.Transmission.Cryptor.{new_cryptor}
use zn_tunnel.Transmission.Rpc.State.{no_error}
use zn_tunnel.Transmission.Session.{Session, reset}
use zn_tunnel.Server.State.{TunnelServer, new_server, blank_sessions, sends_to}
use zn_tunnel.Server.Login.{rpc_connect_handler, user_name, user_password}
use zn_tunnel.Server.Receive.{on_socket_receive}
use zn_tunnel.Server.Forward.{process_transmit, raw_packet_handler}
use zn_tunnel.Server.Forward.Went.{Consistent}
use zn_tunnel.Server.Table.{Attempt, asks, table, replay}
use zn_tunnel.Server.Runs.{Run, begins, connects, receives, elsewhere}
use zn_tunnel.Server.Runs.Refinement.{Run-Table, Run-Consistent}
use zn_tunnel.Server.Runs.Authority.{Granted, process_transmit-Granted, raw_packet_handler-Granted}
use zn_tunnel.Tests.Ciphers.{Shift, shifting}
use zn_tunnel.Tests.Protocols.{memory}
use zn_tunnel.Tests.Transmissions.{ignore}
use zn_tunnel.Tests.Servers.{session, free_session, good_memory, rpc, server}
use zn_tunnel.Tests.Forwarding.{
  or_server, datagram, forwarded, is_forwarded, request_buffer, received, is_received,
}

abbrev attempt : Attempt ℕ
attempt = record { from = 77; name = user_name; password = user_password }

abbrev blank : ℕ → Session Shift ℕ
blank i = free_session

abbrev start : TunnelServer Shift ℕ ℕ
start = new_server server.config server.pool blank rpc 77 0xc0a80001

logged_in :
    rpc_connect_handler shifting (free_session ∷ []) 77 user_name user_password 3 [] [] free_session
    ≡ some ((success, [], []), session ∷ [])
unfolding rpc_connect_handler reset new_cryptor
logged_in = refl

runs_to_server : Run shifting ltb ignore start (asks attempt ∷ []) server
unfolding new_server new_napt blank_sessions
runs_to_server =
    elsewhere rpc server.pool 77 [] (connects attempt 3 [] [] free_session begins logged_in)

runs_to_received : Run shifting ltb ignore start (asks attempt ∷ []) received
runs_to_received =
    receives no_error 44 request_buffer 9 9001 (some server.pool) 0 runs_to_server is_received

Run-Table_example : table received.sessions ≡ replay 1 (asks attempt ∷ [])
Run-Table_example =
    Run-Table shifting ltb ignore server.config server.pool blank rpc 77 0xc0a80001 (λ j. refl)
      (omega arith) runs_to_received

Run-Consistent_example : Consistent received
Run-Consistent_example =
    Run-Consistent shifting ltb ignore server.config server.pool blank rpc 77 0xc0a80001 (λ j. refl)
      (omega arith) runs_to_received

writes : forwarded.requests ≢ server.requests
unfolding process_transmit good_memory memory store store16 store_list load16 fold_carries add_words
    rounds complement load_list existing OrderedMap.find new_napt scan_ports register load32 store32
writes h = omega (arith, ap length h)

process_transmit-Granted_example : Granted 77 (asks attempt ∷ [])
process_transmit-Granted_example =
    process_transmit-Granted shifting ltb ignore server.config server.pool blank rpc 77 0xc0a80001 9
      datagram (λ j. refl) (omega arith) runs_to_server is_forwarded writes

-- The answer of the packet's receiver: what the packet was sent from and to, the other way round.
unfoldable answer_memory : Memory
answer_memory = store16 (store16 (store32 memory 1012 0xac100a0c) 1020 80) 1022 50000

abbrev answered_server : TunnelServer Shift ℕ ℕ
answered_server = record received { rpc = record rpc { memory = answer_memory } }

abbrev delivered : TunnelServer Shift ℕ ℕ
delivered = or_server (raw_packet_handler shifting answered_server 1000 41 0)

is_delivered : raw_packet_handler shifting answered_server 1000 41 0 ≡ some delivered
unfolding raw_packet_handler on_socket_receive process_transmit good_memory memory answer_memory
    store store16 store_list load16 fold_carries add_words rounds complement load_list existing
    OrderedMap.find new_napt scan_ports register load32 store32
is_delivered = refl

reaches_client : length delivered.requests ≡ length received.requests + 1
unfolding raw_packet_handler on_socket_receive process_transmit good_memory memory answer_memory
    store store16 store_list load16 fold_carries add_words rounds complement load_list existing
    OrderedMap.find new_napt scan_ports register load32 store32
reaches_client = refl

raw_packet_handler-Granted_example :
    (delivered ≡ answered_server)
    ⊎ ((to : ℕ) × (answer : List ℕ) × (buf : Buffer) × (delivered.requests
          ≡ answered_server.requests ++ sends_to to answer buf ∷ [])
        × Granted to (asks attempt ∷ []))
raw_packet_handler-Granted_example =
    raw_packet_handler-Granted shifting ltb ignore server.config server.pool blank rpc 77 0xc0a80001
      1000 41 0 (λ j. refl) (omega arith)
      (elsewhere (record rpc { memory = answer_memory }) received.pool received.receive_ep
        received.requests runs_to_received)
      is_delivered
