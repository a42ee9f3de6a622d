-- ===== src/Protocol/Ip4.antt =====
-- `class Ip4` of libtun/include/libtun/protocol/ip4.h. `_header` is an address; the header has its
-- fields at the offsets of RFC 791, which are those of the struct. A `Flag` or `Protocol` is any
-- byte, since the casts accept any; an IP address is its 32-bit number.
pub mod Laws
use zn_tunnel.Prelude.{
  ℕ, ◌+◌, ◌-◌, ◌*◌, ◌/◌, ◌%◌, ◌^◌, Option, bit_and, u8, u32, u64, shr, low_bits,
}
use mathlib.Core.Option
use zn_tunnel.Memory.{Memory, load16, load32, store16, store32}
use zn_tunnel.Buffer.{View}
use zn_tunnel.Protocol.Checksum.{add_words, rounds, fold_carries, complement}

pub record Ip4 : Type 0 where
  pub header : ℕ
  pub size : ℕ

-- `Ip4(buffer, size)` is the record; this is the constructor from a buffer.
unfoldable pub ip4_of_view : View → Ip4
ip4_of_view buffer = record { header = buffer.address; size = u32 buffer.length }

module _ (m : Memory) (ip : Ip4) where
  unfoldable pub version : ℕ
  version = shr (bit_and (m ip.header) 0xf0) 4

  unfoldable pub header_len : ℕ
  header_len = low_bits (m ip.header) 4

  unfoldable pub service_type : ℕ
  service_type = m (ip.header + 1)

  unfoldable pub total_len : ℕ
  total_len = load16 m (ip.header + 2)

  unfoldable pub id : ℕ
  id = load16 m (ip.header + 4)

  unfoldable pub flag : ℕ
  flag = shr (load16 m (ip.header + 6)) 13

  unfoldable pub offset : ℕ
  offset = low_bits (load16 m (ip.header + 6)) 13

  unfoldable pub ttl : ℕ
  ttl = m (ip.header + 8)

  unfoldable pub protocol : ℕ
  protocol = m (ip.header + 9)

  unfoldable pub checksum : ℕ
  checksum = load16 m (ip.header + 10)

  unfoldable pub source_ip : ℕ
  source_ip = load32 m (ip.header + 12)

  unfoldable pub dest_ip : ℕ
  dest_ip = load32 m (ip.header + 16)

  -- The length is an `int` that `mutable_buffer` takes as a `size_t`.
  unfoldable pub payload : View
  unfolding header_len total_len
  payload = record {
    address = ip.header + header_len * 4;
    length = u64 (total_len + 2 ^ 64 - header_len * 4);
  }

  unfoldable pub internal_buffer : View
  internal_buffer = record { address = ip.header; length = ip.size }

  -- `none` is fuel of the carry loop that ran out.
  unfoldable pub calculate_checksum : ℕ → Option ℕ
  unfolding header_len
  calculate_checksum fuel =
      let len = u8 (header_len * 4) in
      Option.map complement (fold_carries fuel (add_words m ip.header 10 (rounds len) 0 0))

unfoldable pub set_checksum : Memory → Ip4 → ℕ → Memory
set_checksum m ip sum = store16 m (ip.header + 10) sum

unfoldable pub set_source_ip : Memory → Ip4 → ℕ → Memory
set_source_ip m ip address = store32 m (ip.header + 12) address

unfoldable pub set_dest_ip : Memory → Ip4 → ℕ → Memory
set_dest_ip m ip address = store32 m (ip.header + 16) address

unfoldable pub calculate_checksum_inplace : ℕ → Memory → Ip4 → Option Memory
unfolding calculate_checksum set_checksum
calculate_checksum_inplace fuel m ip = Option.map (set_checksum m ip) (calculate_checksum m ip fuel)

-- Byte `k` of `address_v4::to_bytes()`, the most significant first.
unfoldable pub address_byte : ℕ → ℕ → ℕ
address_byte address k = address / 256 ^ (3 - k) % 256
