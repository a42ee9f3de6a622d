-- ===== src/Protocol/Tcp.antt =====
-- `class Tcp` of libtun/include/libtun/protocol/tcp.h, over the payload of an IP packet.
pub mod Laws
pub mod Reference
pub mod Beyond
use mathlib.Core.Option
use zn_tunnel.Prelude.{
  ℕ, ◌+◌, ◌-◌, ◌*◌, ◌^◌, Option, Bool, not, ◌==◌, bit_and, u32, sub32, u64, shr, ltb, none,
  if◌then◌else◌,
}
use zn_tunnel.Memory.{Memory, load16, load32, store16}
use zn_tunnel.Buffer.{View}
use zn_tunnel.Protocol.Checksum.{add_words, rounds, fold_carries, complement}
use zn_tunnel.Protocol.Ip4.{Ip4, payload, source_ip, dest_ip, protocol, address_byte}

pub record Tcp : Type 0 where
  pub header : ℕ
  pub size : ℕ
  pub ip : Ip4

unfoldable pub tcp_of_ip4 : Memory → Ip4 → Tcp
unfolding payload
tcp_of_ip4 m ip =
    let buffer = payload m ip in
    record { header = buffer.address; size = u32 buffer.length; ip = ip }

-- A byte or an `&` as a `bool`.
abbrev test_bits : ℕ → ℕ → Bool
test_bits flags mask = not (bit_and flags mask == 0)

module _ (m : Memory) (tcp : Tcp) where
  unfoldable pub source_port : ℕ
  source_port = load16 m tcp.header

  unfoldable pub dest_port : ℕ
  dest_port = load16 m (tcp.header + 2)

  unfoldable pub sequence : ℕ
  sequence = load32 m (tcp.header + 4)

  unfoldable pub acknowledgment : ℕ
  acknowledgment = load32 m (tcp.header + 8)

  unfoldable pub header_len : ℕ
  header_len = shr (bit_and (m (tcp.header + 12)) 0xf0) 4

  unfoldable pub cwr : Bool
  cwr = test_bits (m (tcp.header + 13)) 0b10000000

  unfoldable pub ece : Bool
  ece = test_bits (m (tcp.header + 13)) 0b01000000

  unfoldable pub urg : Bool
  urg = test_bits (m (tcp.header + 13)) 0b00100000

  unfoldable pub ack : Bool
  ack = test_bits (m (tcp.header + 13)) 0b00010000

  unfoldable pub psh : Bool
  psh = test_bits (m (tcp.header + 13)) 0b00001000

  unfoldable pub rst : Bool
  rst = test_bits (m (tcp.header + 13)) 0b00000100

  unfoldable pub syn : Bool
  syn = test_bits (m (tcp.header + 13)) 0b00000010

  unfoldable pub fin : Bool
  fin = test_bits (m (tcp.header + 13)) 0b00000001

  unfoldable pub window : ℕ
  window = load16 m (tcp.header + 14)

  unfoldable pub checksum : ℕ
  checksum = load16 m (tcp.header + 16)

  unfoldable pub urgent_pointer : ℕ
  urgent_pointer = load16 m (tcp.header + 18)

  -- The length is computed as `uint32_t`.
  unfoldable pub tcp_payload : View
  unfolding header_len
  tcp_payload = record {
    address = tcp.header + header_len * 4;
    length = sub32 tcp.size (header_len * 4);
  }

  -- What the pseudo header adds, each line of it a `uint32_t` sum.
  unfoldable pub pseudo_sum : ℕ
  unfolding source_ip dest_ip protocol address_byte
  pseudo_sum =
      let words = λ (a : ℕ).
        address_byte a 0 * 2 ^ 8 + address_byte a 1 + address_byte a 2 * 2 ^ 8 + address_byte a 3 in
      u32 (words (source_ip m tcp.ip) + words (dest_ip m tcp.ip) + protocol m tcp.ip + tcp.size)

  -- The loop counts with an `int`, which overflows for a size of 2 ^ 31 - 1 or more: what happens
  -- then is undefined, which is `none`, as is fuel that runs out.
  unfoldable pub calculate_checksum : ℕ → Option ℕ
  unfolding pseudo_sum
  calculate_checksum fuel =
      let sum = fold_carries fuel (add_words m tcp.header 16 (rounds tcp.size) 0 pseudo_sum) in
      if ltb tcp.size (2 ^ 31 - 1) then Option.map complement sum else none

unfoldable pub set_source_port : Memory → Tcp → ℕ → Memory
set_source_port m tcp port = store16 m tcp.header port

unfoldable pub set_dest_port : Memory → Tcp → ℕ → Memory
set_dest_port m tcp port = store16 m (tcp.header + 2) port

unfoldable pub set_checksum : Memory → Tcp → ℕ → Memory
set_checksum m tcp sum = store16 m (tcp.header + 16) sum

unfoldable pub calculate_checksum_inplace : ℕ → Memory → Tcp → Option Memory
unfolding calculate_checksum set_checksum
calculate_checksum_inplace fuel m tcp =
    Option.map (set_checksum m tcp) (calculate_checksum m tcp fuel)
