-- ===== src/Protocol/Udp.antt =====
-- `class Udp` of libtun/include/libtun/protocol/udp.h, over the payload of an IP packet.
use zn_tunnel.Prelude.{ℕ, ◌+◌, u32, sub32}
use zn_tunnel.Memory.{Memory, load16, store16}
use zn_tunnel.Buffer.{View}
use zn_tunnel.Protocol.Ip4.{Ip4, payload}

pub record Udp : Type 0 where
  pub header : ℕ
  pub size : ℕ
  pub ip : Ip4

unfoldable pub udp_of_ip4 : Memory → Ip4 → Udp
unfolding payload
udp_of_ip4 m ip =
    let buffer = payload m ip in
    record { header = buffer.address; size = u32 buffer.length; ip = ip }

module _ (m : Memory) (udp : Udp) where
  unfoldable pub source_port : ℕ
  source_port = load16 m udp.header

  unfoldable pub dest_port : ℕ
  dest_port = load16 m (udp.header + 2)

  unfoldable pub total_len : ℕ
  total_len = load16 m (udp.header + 4)

  unfoldable pub checksum : ℕ
  checksum = load16 m (udp.header + 6)

unfoldable pub udp_payload : Udp → View
udp_payload udp = record { address = udp.header + 8; length = sub32 udp.size 8 }

unfoldable pub set_source_port : Memory → Udp → ℕ → Memory
set_source_port m udp port = store16 m udp.header port

unfoldable pub set_dest_port : Memory → Udp → ℕ → Memory
set_dest_port m udp port = store16 m (udp.header + 2) port

unfoldable pub set_total_len : Memory → Udp → ℕ → Memory
set_total_len m udp len = store16 m (udp.header + 4) len

unfoldable pub set_checksum : Memory → Udp → ℕ → Memory
set_checksum m udp sum = store16 m (udp.header + 6) sum
