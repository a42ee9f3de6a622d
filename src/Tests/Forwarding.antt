-- ===== src/Tests/Forwarding.antt =====
-- TunnelServer.cc: packets that the server of the other tests forwards, both ways.
use zn_tunnel.Prelude.{ℕ, ◌≡◌, refl, inl, ltb, [], ◌∷◌, Option, none, some, arith}
use zn_tunnel.Memory.{load_list, store, store_list, store16, load16, load32, store32}
use zn_tunnel.Buffer.{Buffer}
use zn_tunnel.Pool.{alloc}
use zn_tunnel.Containers.Order.{nat_eq}
use zn_tunnel.Napt.{Connection, new_napt, existing, scan_ports, register}
use zn_tunnel.Protocol.Tcp
use zn_tunnel.Protocol.Tcp.Reference
use zn_tunnel.Protocol.Checksum.{fold_carries, add_words, rounds, complement}
use zn_tunnel.Containers.OrderedMap
use zn_tunnel.Transmission.Constant.{command_code, transmit}
use zn_tunnel.Transmission.Cryptor.{decrypt}
use zn_tunnel.Transmission.Rpc.State.{no_error}
use zn_tunnel.Transmission.Session.{Session}
use zn_tunnel.Server.State.{TunnelServer, sends_to}
use zn_tunnel.Server.Forward.{process_transmit, transmit_tcp, send_packet, raw_packet_handler}
use zn_tunnel.Server.Forward.Went.{Consistent}
use zn_tunnel.Server.Forward.Effects.{Transmitted, process_transmit-Transmitted}
use zn_tunnel.Server.Forward.Return.{Delivered, connection_of, raw_packet_handler_delivers}
use zn_tunnel.Server.Forward.Seal.{HasBlock, outgoing, send_packet-decrypt}
use zn_tunnel.Server.Receive.{on_socket_receive}
use zn_tunnel.Tests.Ciphers.{Shift, shifting, shifting-IsCipher}
use zn_tunnel.Tests.Protocols.{memory, memory-IsBytes, ip}
use zn_tunnel.Tests.Transmissions.{ignore}
use zn_tunnel.Tests.Servers.{plain, plain-IsSynchronized, session, napt, good_memory, rpc, server}

abbrev pub datagram : Buffer
datagram = record { internal = 990; internal_size = 1600; start = 998; size = 43 }

abbrev pub or_server : Option (TunnelServer Shift ℕ ℕ) → TunnelServer Shift ℕ ℕ
or_server none = server
or_server (some s) = s

abbrev pub forwarded : TunnelServer Shift ℕ ℕ
forwarded = or_server (process_transmit shifting server 9 datagram)

pub is_forwarded : process_transmit shifting server 9 datagram ≡ some forwarded
unfolding process_transmit good_memory memory store store16 store_list load16 fold_carries add_words
    rounds complement load_list existing OrderedMap.find new_napt scan_ports register load32 store32
is_forwarded = refl

server-Consistent : Consistent server
unfolding new_napt
server-Consistent = (tt, tt)

process_transmit-Transmitted_example : Transmitted (load16 good_memory 998) server forwarded
process_transmit-Transmitted_example =
    process_transmit-Transmitted shifting server 9 datagram server-Consistent is_forwarded

-- The source address of the packet, as it goes out.
sourced : load_list forwarded.rpc.memory 1012 4 ≡ 192 ∷ 168 ∷ 0 ∷ 1 ∷ []
unfolding process_transmit good_memory memory store store16 store_list load16 fold_carries add_words
    rounds complement load_list existing OrderedMap.find new_napt scan_ports register load32 store32
sourced = refl

abbrev opened : TunnelServer Shift ℕ ℕ
opened = record server { rpc = record rpc { memory = memory } }

abbrev translated : TunnelServer Shift ℕ ℕ
translated = or_server (transmit_tcp opened 0 ip)

abbrev sent : TunnelServer Shift ℕ ℕ
sent = or_server (send_packet shifting opened 0 session 1000 24 0)

is_sent : send_packet shifting opened 0 session 1000 24 0 ≡ some sent
unfolding send_packet
is_sent = refl

block : HasBlock opened 1000 24 0 65536 (record opened.pool { available = [] })
unfolding alloc
block = record {
  allocated = refl;
  mapped = omega arith;
  small = omega arith;
  apart = inl (omega arith);
  bytes = memory-IsBytes;
}

send_packet-decrypt_example :
    (sent.requests ≡ sends_to 77 (load_list sent.rpc.memory 65546 25) (outgoing 65536 24) ∷ [])
    × (sent.rpc.memory 65546 ≡ command_code transmit)
    × (load_list (decrypt shifting sent.rpc.memory plain 65547 24).0 65547 24
        ≡ load_list memory 1000 24)
send_packet-decrypt_example =
    send_packet-decrypt shifting shifting-IsCipher opened 0 session 1000 24 0 65536
      (record opened.pool { available = [] }) sent sent.rpc.memory plain 65546 block
      plain-IsSynchronized plain-IsSynchronized refl refl is_sent refl

-- A packet from 172.16.10.99 port 8080, to the local port 80 of the client.
abbrev connection : Connection ℕ
connection = record {
  server_ip = 0xac100a63;
  server_port = 8080;
  client_id = 0;
  client_port = 5555;
  local_port = 80;
}

abbrev connected_server : TunnelServer Shift ℕ ℕ
connected_server = record opened {
  tcp_napt = record napt {
    server_map =
        (record { server_ip = 0xac100a63; server_port = 8080; local_port = 80 }, connection) ∷ [];
  };
}

abbrev delivered : TunnelServer Shift ℕ ℕ
delivered = or_server (raw_packet_handler shifting connected_server 1000 41 0)

is_delivered : raw_packet_handler shifting connected_server 1000 41 0 ≡ some delivered
unfolding raw_packet_handler memory store store16 store_list load16 load32
is_delivered = refl

raw_packet_handler_delivers_example :
    Delivered connected_server (connection_of connected_server 1000 41) delivered
raw_packet_handler_delivers_example =
    raw_packet_handler_delivers shifting connected_server 1000 41 0 is_delivered

-- The datagram as it is received, behind 50 bytes of its block.
abbrev pub request_buffer : Buffer
request_buffer = record { internal = 947; internal_size = 1600; start = 997; size = 1550 }

abbrev pub received : TunnelServer Shift ℕ ℕ
received = or_server (
    on_socket_receive shifting ltb ignore server no_error 44 request_buffer 9 9001
      (some server.pool) 0)

pub is_received :
    on_socket_receive shifting ltb ignore server no_error 44 request_buffer 9 9001
      (some server.pool)
      0
    ≡ some received
unfolding on_socket_receive good_memory memory store store16 store_list load16 fold_carries
    add_words rounds complement load_list existing OrderedMap.find new_napt scan_ports register
    load32 store32
is_received = refl
