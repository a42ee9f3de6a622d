-- ===== src/Protocol/Tcp/Reference.antt =====
-- The checksum of a segment as RFC 793 describes it, beside that of `Tcp::calculateChecksum`.
use mathlib.Core.Option.{some-injective}
use native.Mathlib.Nat.{add-zero}
use zn_tunnel.Prelude.{
  ◌==◌, if◌then◌else◌, true, false, ◌%◌, ◌-◌, ℕ, suc, ◌+◌, ◌*◌, ◌/◌, ◌^◌, ◌≤◌, ◌<◌, ◌≡◌, sym, ◌∙◌,
  ap, ap₂, subst, ◌⊎◌, inl, inr, some, arith,
}
use zn_tunnel.Memory.{Memory, load16, load32, store16}
use zn_tunnel.Memory.Laws.{IsBytes, store16_ne, store-IsBytes, load16-lt}
use zn_tunnel.Protocol.Checksum.{rounds, complement}
use zn_tunnel.Protocol.Checksum.Fold.{folded, folded-complement, complement-lt}
use zn_tunnel.Protocol.Checksum.Sum.{word_sum, add_words-skip, word_sum-snoc, word_sum-ext}
use native.Mathlib.Decide.{dec_lt}
use zn_tunnel.Protocol.Ip4.{source_ip, dest_ip, protocol, address_byte}
use zn_tunnel.Protocol.Tcp.{Tcp, checksum, pseudo_sum, set_checksum, calculate_checksum_inplace}
use zn_tunnel.Protocol.Tcp.Laws.{
  segment_sum, pseudo_sum-ext, checksummed, calculate_checksum_inplace-eq, segment_sum-set_checksum,
  checksum-set_checksum,
}

-- The sum of the 16-bit words of `size` bytes, the last one padded with a zero byte where
-- the size is odd.
unfoldable pub padded_sum : Memory → ℕ → ℕ → ℕ
padded_sum m a size =
    word_sum m a (size / 2) + (if size % 2 == 1 then m (a + size - 1) * 2 ^ 8 else 0)

-- RFC 793: the pseudo header, both addresses in 16-bit words, the protocol and the length of the
-- segment, and behind it the segment.
unfoldable pub reference_sum : Memory → Tcp → ℕ
reference_sum m tcp =
    let header = tcp.ip.header in
    word_sum m (header + 12) 4 + m (header + 9) + tcp.size + padded_sum m tcp.header tcp.size

-- The segment is of even length, or a zero byte happens to stand behind it.
abbrev pub IsPadded : Memory → Tcp → Type 0
IsPadded m tcp = (tcp.size % 2 ≡ 0) ⊎ (m (tcp.header + tcp.size) ≡ 0)

padded_sum-word_sum :
    (m : Memory) (tcp : Tcp)
    → 18 ≤ tcp.size
    → IsPadded m tcp
    → padded_sum m tcp.header tcp.size ≡ word_sum m tcp.header (rounds tcp.size)
unfolding padded_sum rounds
padded_sum-word_sum m tcp long padded = elim (dec_lt (tcp.size % 2) 1) [
  | yes even ↦
      let half : (tcp.size + 1) / 2 ≡ tcp.size / 2 = omega (arith, even) in
      let no_rest : (tcp.size % 2 == 1) ≡ false = ground (arith, even) in
      rw (half, no_rest) (omega arith)
  | no odd ↦
      let a = tcp.header in
      let half : (tcp.size + 1) / 2 ≡ suc (tcp.size / 2) = omega (arith, odd) in
      let rest : (tcp.size % 2 == 1) ≡ true = ground (arith, odd) in
      let last : a + tcp.size - 1 ≡ a + 2 * (tcp.size / 2) = omega (arith, odd, long) in
      let behind : a + tcp.size ≡ a + 2 * (tcp.size / 2) + 1 = omega (arith, odd) in
      let zero_behind : m (a + tcp.size) ≡ 0 = ground (arith, odd, padded) in
      let word : load16 m (a + 2 * (tcp.size / 2)) ≡ m (a + 2 * (tcp.size / 2)) * 2 ^ 8 =
        unfold load16 in omega (arith, ap m behind, zero_behind) in
      rw (half, rest, last) (omega (arith, word_sum-snoc m a (tcp.size / 2), word))
]

-- The two words of an address, from its bytes.
address_words :
    (m : Memory) (a : ℕ)
    → IsBytes m
    → let ip = load32 m a in
      address_byte ip 0 * 2 ^ 8 + address_byte ip 1 + address_byte ip 2 * 2 ^ 8 + address_byte ip 3
      ≡ load16 m a + load16 m (a + 2)
unfolding address_byte load32 load16
address_words m a bytes =
    let third : a + 2 + 1 ≡ a + 3 = omega arith in
    omega (arith, bytes a, bytes (a + 1), bytes (a + 2), bytes (a + 3), ap m third)

-- What the code adds for the pseudo header is what RFC 793 adds.
pseudo_sum-reference :
    (m : Memory) (tcp : Tcp)
    → IsBytes m
    → tcp.size < 2 ^ 16
    → pseudo_sum m tcp ≡ word_sum m (tcp.ip.header + 12) 4 + m (tcp.ip.header + 9) + tcp.size
unfolding pseudo_sum word_sum source_ip dest_ip protocol
pseudo_sum-reference m tcp bytes short =
    let a = tcp.ip.header in
    let third : a + 12 + 2 + 2 ≡ a + 16 = omega arith in
    let fourth : a + 12 + 2 + 2 + 2 ≡ a + 16 + 2 = omega arith in
    omega (
      arith,
      short,
      bytes (a + 9),
      load16-lt m (a + 12) bytes,
      load16-lt m (a + 12 + 2) bytes,
      load16-lt m (a + 16) bytes,
      load16-lt m (a + 16 + 2) bytes,
      address_words m (a + 12) bytes,
      address_words m (a + 16) bytes,
      ap (load16 m) third,
      ap (load16 m) fourth,
    )

-- The bytes from the protocol on that the sum of RFC 793 takes up.
pub reference_sum-ext :
    (m m' : Memory) (tcp : Tcp)
    → tcp.ip.header + 20 ≤ tcp.header
    → 18 ≤ tcp.size
    → ((x : ℕ) → (x < tcp.ip.header + 10) ⊎ (tcp.ip.header + 12 ≤ x) → m x ≡ m' x)
    → reference_sum m tcp ≡ reference_sum m' tcp
unfolding reference_sum padded_sum
reference_sum-ext m m' tcp behind long h = omega (
  arith,
  h (tcp.ip.header + 9) (inl (omega arith)),
  word_sum-ext m m' (tcp.ip.header + 12) 4 (λ x p q. h x (inr p)),
  word_sum-ext m m' tcp.header (tcp.size / 2) (λ x p q. h x (inr (omega (arith, p, behind)))),
  ap (λ (v : ℕ). if tcp.size % 2 == 1 then v * 2 ^ 8 else 0)
      (h (tcp.header + tcp.size - 1) (inr (omega (arith, behind, long)))),
)

-- A segment of a header's length or more adds up in 32 bits.
pub segment_sum-word_sum :
    (m : Memory) (tcp : Tcp)
    → IsBytes m
    → 18 ≤ tcp.size
    → tcp.size < 2 ^ 16
    → segment_sum m tcp + checksum m tcp
      ≡ pseudo_sum m tcp + word_sum m tcp.header (rounds tcp.size)
unfolding checksum rounds pseudo_sum
segment_sum-word_sum m tcp bytes long short = omega (
  arith,
  add_words-skip m tcp.header 16 bytes ((tcp.size + 1) / 2) 0 (pseudo_sum m tcp) 8 (omega arith)
      (omega arith) (omega arith),
  ap (λ (t : ℕ). word_sum m t ((tcp.size + 1) / 2)) (add-zero tcp.header),
)

pub set_checksum-IsBytes :
    (m : Memory) (tcp : Tcp) (sum : ℕ) → IsBytes m → IsBytes (set_checksum m tcp sum)
unfolding set_checksum store16
set_checksum-IsBytes m tcp sum h = store-IsBytes _ _ _ (store-IsBytes _ _ _ h)

pseudo_sum-set_checksum :
    (m : Memory) (tcp : Tcp) (sum : ℕ)
    → tcp.ip.header + 20 ≤ tcp.header
    → pseudo_sum (set_checksum m tcp sum) tcp ≡ pseudo_sum m tcp
unfolding set_checksum
pseudo_sum-set_checksum m tcp sum behind =
    pseudo_sum-ext (store16 m (tcp.header + 16) sum) m tcp
      λ x p q. store16_ne m (tcp.header + 16) sum x (inl (omega arith))

checksummed-ones :
    (m : Memory) (tcp : Tcp)
    → tcp.ip.header + 20 ≤ tcp.header
    → IsBytes m
    → 18 ≤ tcp.size
    → tcp.size < 2 ^ 16
    → let m' = checksummed m tcp in
      folded (pseudo_sum m' tcp + word_sum m' tcp.header (rounds tcp.size)) ≡ 65535
checksummed-ones m tcp behind bytes long short =
    let sum = complement (folded (segment_sum m tcp)) in
    let m' = set_checksum m tcp sum in
    ap folded (
      sym (segment_sum-word_sum m' tcp (set_checksum-IsBytes m tcp sum bytes) long short)
      ∙ ap₂ ◌+◌ (segment_sum-set_checksum m tcp behind sum)
          (checksum-set_checksum m tcp behind sum (complement-lt _)))
    ∙ folded-complement (segment_sum m tcp)

pub checksummed-reference :
    (m : Memory) (tcp : Tcp)
    → tcp.ip.header + 20 ≤ tcp.header
    → IsBytes m
    → 18 ≤ tcp.size
    → tcp.size < 2 ^ 16
    → IsPadded m tcp
    → folded (reference_sum (checksummed m tcp) tcp) ≡ 65535
unfolding reference_sum set_checksum
checksummed-reference m tcp behind bytes long short padded =
    let m' = checksummed m tcp in
    let same_behind : m' (tcp.header + tcp.size) ≡ m (tcp.header + tcp.size) =
      store16_ne m (tcp.header + 16) _ (tcp.header + tcp.size) (inr (omega (arith, long))) in
    let still-IsPadded : IsPadded m' tcp = ground (arith, padded, same_behind) in
    let total : reference_sum m' tcp
        ≡ pseudo_sum m' tcp + word_sum m' tcp.header (rounds tcp.size) =
      omega (
        arith,
        pseudo_sum-reference m' tcp (set_checksum-IsBytes m tcp _ bytes) short,
        padded_sum-word_sum m' tcp long still-IsPadded,
      ) in
    ap folded total ∙ checksummed-ones m tcp behind bytes long short

-- RFC 793, in a memory of bytes: for a segment of 18 bytes or more, and less than 2 ^ 16, behind a header of 20 bytes
-- or more, of even length or with a zero byte behind it, with the checksum that
-- `calculateChecksumInplace` stores, the 16-bit words of both addresses, the protocol, the length and
-- the words of the segment sum up to all ones. Fuel of 3 or more.
pub segment_checksum_ones :
    (m : Memory) (tcp : Tcp) (fuel : ℕ) {m' : Memory}
    → 3 ≤ fuel
    → tcp.ip.header + 20 ≤ tcp.header
    → IsBytes m
    → 18 ≤ tcp.size
    → tcp.size < 2 ^ 16
    → IsPadded m tcp
    → calculate_checksum_inplace fuel m tcp ≡ some m'
    → folded (reference_sum m' tcp) ≡ 65535
segment_checksum_ones m tcp fuel {m'} h behind bytes long short padded e =
    subst (λ (t : Memory). folded (reference_sum t tcp) ≡ 65535)
      (some-injective _ _
        (sym (calculate_checksum_inplace-eq m tcp fuel h (omega (arith, short))) ∙ e))
      (checksummed-reference m tcp behind bytes long short padded)
