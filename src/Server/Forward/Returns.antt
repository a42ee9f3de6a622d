-- ===== src/Server/Forward/Returns.antt =====
-- Packets of a client, server/TunnelServer.cc: their handler returns.
use zn_tunnel.Prelude.{◌+◌, ◌^◌, ◌-◌, ◌<◌, sub32}
use zn_tunnel.Buffer.{Buffer}
use zn_tunnel.Containers.Order.{Eq, nat_eq}
use zn_tunnel.Protocol.Ip4
use zn_tunnel.Protocol.Ip4.{Ip4}
use zn_tunnel.Protocol.Tcp
use zn_tunnel.Protocol.Udp
use zn_tunnel.Transmission.Cryptor.{Cipher, decrypt}
use zn_tunnel.Transmission.Session.{Session}
use zn_tunnel.Server.State.{TunnelServer}

module _ {State Endpoint Callback : Type 0} (cipher : Cipher State) ⦃e : Eq Endpoint⦄ where
  -- The packet, once decrypted, has a TCP segment that the `int` of the sum can count: its total
  -- length is not less than that of its header.
  abbrev pub Counted :
      TunnelServer State Endpoint Callback → Session State Endpoint → Ip4 → Buffer → Type 0
  Counted server session ip4 buf =
      (Tcp.tcp_of_ip4
        (decrypt cipher server.rpc.memory session.cryptor (buf.start + 2) (sub32 buf.size 2)).0
        ip4).size
      < 2 ^ 31 - 1
