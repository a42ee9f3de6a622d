-- ===== src/Tests/Servers.antt =====
-- TunnelServer.cc: a server with one client, whose cipher leaves bytes as they are.
use zn_tunnel.Prelude.{ℕ, ◌≡◌, refl, [], ◌∷◌, some, arith}
use zn_tunnel.Memory.{Memory, store, store16}
use zn_tunnel.Containers.Order.{nat_eq}
use zn_tunnel.Napt.{Napt, new_napt}
use zn_tunnel.Transmission.Constant.{success, connected, idle}
use zn_tunnel.Transmission.Cryptor.{Cryptor}
use zn_tunnel.Transmission.Cryptor.Laws.{IsSynchronized}
use zn_tunnel.Transmission.Rpc.State.{Rpc}
use zn_tunnel.Transmission.Session.{Session, reset}
use zn_tunnel.Server.State.{TunnelServer}
use zn_tunnel.Server.Login.{
  rpc_connect_handler, rpc_ping_handler, user_name, user_password, is_session_of,
}
use zn_tunnel.Server.Login.Laws.{ping_first, ping-connect}
use zn_tunnel.Tests.Ciphers.{Shift, shifting, shifting-IsCipher}
use zn_tunnel.Tests.Protocols.{memory}
use zn_tunnel.Tests.Transmissions.{state}

abbrev pub plain : Cryptor Shift
plain = record {
  key = [];
  iv = [];
  encryption = record { offset = 0; processed = 0 };
  decryption = record { offset = 256; processed = 0 };
}

pub plain-IsSynchronized : IsSynchronized shifting shifting-IsCipher plain
plain-IsSynchronized = record { at_encrypt = refl; at_decrypt = refl }

abbrev pub session : Session Shift ℕ
session = record {
  cryptor = plain;
  endpoint = 77;
  client_id = 0;
  last_active_at = 3;
  transmitted_bytes = 0;
  status = connected;
  error = success;
}

abbrev pub free_session : Session Shift ℕ
free_session = record session { endpoint = 0; status = idle }

abbrev pub napt : Napt ℕ
napt = new_napt ℕ 50000 50999

-- The packet with its checksum, behind a command and the number 0.
unfoldable pub good_memory : Memory
good_memory = store (store16 memory 1010 0xb1f9) 997 2

abbrev pub rpc : Rpc Shift ℕ ℕ
rpc = record state { memory = good_memory }

abbrev pub server : TunnelServer Shift ℕ ℕ
server = record {
  config = record {
    listen_port = 9000;
    port_from = 50000;
    port_to = 50999;
    max_sessions = 1;
    key = [];
    iv = [];
  };
  tcp_napt = napt;
  udp_napt = napt;
  sessions = session ∷ [];
  pool = record { buffers_per_chunk = 2; memory_chunks = 65536 ∷ []; available = 65536 ∷ [] };
  rpc = rpc;
  receive_ep = 77;
  if_address = 0xc0a80001;
  requests = [];
}

ping_first_example :
    rpc_ping_handler (free_session ∷ session ∷ []) 77 9
    ≡ (success, free_session ∷ record session { last_active_at = 9 } ∷ [])
unfolding is_session_of
ping_first_example = ping_first (free_session ∷ []) session [] 77 9 (refl, tt) refl (omega arith)

ping-connect_example :
    (rpc_ping_handler (session ∷ reset shifting free_session 1 78 9 [] [] ∷ []) 78 10).0 ≡ success
ping-connect_example =
    ping-connect shifting (session ∷ []) 78 user_name user_password 9 10 [] [] free_session
      connect_adds_checked refl
  where
    connect_adds_checked :
        rpc_connect_handler shifting (session ∷ []) 78 user_name user_password 9 [] [] free_session
        ≡ some ((success, [], []), session ∷ reset shifting free_session 1 78 9 [] [] ∷ [])
    connect_adds_checked = unfold rpc_connect_handler reset in refl
