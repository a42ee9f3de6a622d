-- ===== src/Tests/Protocols.antt =====
-- ip4.h and tcp.h: the packet header of RFC 1071 tutorials, at address 1000, and a segment behind it.
use zn_tunnel.Prelude.{ℕ, ◌+◌, ◌*◌, ◌≤◌, ◌<◌, ◌≡◌, ◌≢◌, ◌⊎◌, inr, refl, List, [], ◌∷◌, some, arith}
use zn_tunnel.Memory.{Memory, store, store_list, load16}
use zn_tunnel.Memory.Laws.{IsBytes, store_list-IsBytes}
use zn_tunnel.Protocol.Checksum.{add_words, rounds, fold_carries, complement}
use zn_tunnel.Protocol.Checksum.Fold.{folded}
use zn_tunnel.Protocol.Checksum.Sum.{word_sum}
use zn_tunnel.Protocol.Ip4.{
  Ip4, header_len, version, total_len, protocol, calculate_checksum, payload, source_ip,
  set_source_ip,
}
use zn_tunnel.Protocol.Ip4.Laws.{
  checksummed, calculate_checksum_inplace-eq, calculate_checksum_inplace_ones, version-header_len,
  set_source_ip_lem, payload_end,
}
use zn_tunnel.Protocol.Tcp
use zn_tunnel.Protocol.Tcp.{Tcp}
use zn_tunnel.Protocol.Tcp.Laws
use zn_tunnel.Protocol.Tcp.Reference
use zn_tunnel.Protocol.Tcp.Beyond
use zn_tunnel.Tests.Buffers.{blank}

abbrev pub packet : List ℕ
packet =
    0x45 ∷ 0x00 ∷ 0x00 ∷ 0x29 ∷ 0x1c ∷ 0x46 ∷ 0x40 ∷ 0x00 ∷ 0x40 ∷ 0x06 ∷ 0x00 ∷ 0x00 ∷ 0xac ∷ 0x10
    ∷ 0x0a ∷ 0x63 ∷ 0xac ∷ 0x10 ∷ 0x0a ∷ 0x0c ∷ 0x1f ∷ 0x90 ∷ 0x00 ∷ 0x50 ∷ []

unfoldable pub memory : Memory
memory = store_list blank 1000 packet

abbrev pub ip : Ip4
ip = record { header = 1000; size = 41 }

-- 21 bytes of segment.
abbrev segment : Tcp
segment = record { header = 1020; size = 21; ip = ip }

pub segment_made : Tcp.tcp_of_ip4 memory ip ≡ segment
unfolding memory Tcp.tcp_of_ip4 store_list store load16
segment_made = refl

header_checksum : calculate_checksum memory ip 3 ≡ some 0xb1f9
unfolding calculate_checksum memory add_words rounds fold_carries complement store_list store
header_checksum = refl

pub memory-IsBytes : IsBytes memory
unfolding memory
memory-IsBytes = store_list-IsBytes blank 1000 packet (λ a. omega arith)

fields : (header_len memory ip ≡ 5) × (total_len memory ip ≡ 41) × (protocol memory ip ≡ 6)
unfolding header_len total_len protocol memory store_list store load16
fields = (refl, refl, refl)

pub header_words : 5 ≤ header_len memory ip
header_words = omega (arith, fields)

calculate_checksum_inplace_ones_example :
    let m' = checksummed memory ip in folded (word_sum m' 1000 (2 * header_len m' ip)) ≡ 65535
calculate_checksum_inplace_ones_example =
    calculate_checksum_inplace_ones memory ip 3 (omega arith) memory-IsBytes header_words
      (calculate_checksum_inplace-eq memory ip 3 (omega arith))

version-header_len_example : version memory ip * 16 + header_len memory ip ≡ memory 1000
version-header_len_example = version-header_len memory ip memory-IsBytes

set_source_ip_lem_example :
    let m' = set_source_ip memory ip 0xc0a80001 in
    (source_ip m' ip ≡ 0xc0a80001) × ((x : ℕ) → (x < 1012) ⊎ (1016 ≤ x) → m' x ≡ memory x)
set_source_ip_lem_example = set_source_ip_lem memory ip 0xc0a80001 (omega arith)

payload_end_example :
    (payload memory ip).address + (payload memory ip).length ≡ 1000 + total_len memory ip
payload_end_example = payload_end memory ip memory-IsBytes (omega (arith, fields))

pub beyond_blank : memory 1041 ≡ 0
unfolding memory store_list store
beyond_blank = refl

segment_checksum_ones_example :
    let m' = Tcp.Laws.checksummed memory segment in
    folded (Tcp.Reference.reference_sum m' segment) ≡ 65535
segment_checksum_ones_example =
    Tcp.Reference.segment_checksum_ones memory segment 3 (omega arith) (omega arith) memory-IsBytes
      (omega arith) (omega arith) (inr beyond_blank)
      (Tcp.Laws.calculate_checksum_inplace-eq memory segment 3 (omega arith) (omega arith))

calculate_checksum_reads_beyond_example :
    Tcp.calculate_checksum (store memory 1041 1) segment 3 ≢ Tcp.calculate_checksum memory segment 3
calculate_checksum_reads_beyond_example =
    Tcp.Beyond.calculate_checksum_reads_beyond memory segment 10 memory-IsBytes refl (omega arith)
      (omega arith) (omega arith) beyond_blank 3 (omega arith)
