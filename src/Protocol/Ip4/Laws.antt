-- ===== src/Protocol/Ip4/Laws.antt =====
-- The header's fields, and the checksum that `calculateChecksumInplace` leaves.
use mathlib.Core.Option
use mathlib.Core.Option.{some-injective}
use native.Mathlib.Nat.{add-zero}
use zn_tunnel.Prelude.{
  ℕ, ◌+◌, ◌*◌, ◌/◌, ◌%◌, ◌^◌, ◌≤◌, ◌<◌, ◌≡◌, refl, sym, ◌∙◌, ap, ap₂, subst, true, shr, ◌==◌,
  ==_iff, passes_to, passes_to_at, ◌⊎◌, inl, some, arith, bit_and, u8,
}
use zn_tunnel.Memory.{Memory, store16}
use zn_tunnel.Memory.Laws.{
  IsBytes, store16_ne, store-IsBytes, load16-store16, load16-lt, load32-store32, store32_ne,
}
use zn_tunnel.Protocol.Checksum.{add_words, rounds, complement}
use zn_tunnel.Protocol.Checksum.Fold.{folded, fold_carries-folded, folded-complement, complement-lt}
use zn_tunnel.Protocol.Checksum.Sum.{word_sum, add_words-skip, add_words-ext, add_words-lt}
use zn_tunnel.Protocol.Ip4.{
  Ip4, version, header_len, total_len, payload, checksum, source_ip, calculate_checksum,
  set_checksum, set_source_ip, calculate_checksum_inplace,
}

-- What the summing loop of the header finds.
abbrev pub header_sum : Memory → Ip4 → ℕ
header_sum m ip = add_words m ip.header 10 (rounds (u8 (header_len m ip * 4))) 0 0

-- The checksum is always computed: three rounds of the carry loop are enough.
pub calculate_checksum-eq :
    (m : Memory) (ip : Ip4) (fuel : ℕ)
    → 3 ≤ fuel
    → calculate_checksum m ip fuel ≡ some (complement (folded (header_sum m ip)))
unfolding calculate_checksum
calculate_checksum-eq m ip fuel h =
    ap (Option.map complement) (
      fold_carries-folded fuel (header_sum m ip) (add_words-lt m ip.header 10 _ 0 0 (omega arith))
        h)

-- Writing the checksum does not change what it is computed from.
pub header_sum-set_checksum :
    (m : Memory) (ip : Ip4) (sum : ℕ) → header_sum (set_checksum m ip sum) ip ≡ header_sum m ip
unfolding set_checksum header_len
header_sum-set_checksum m ip sum =
    rw (store16_ne m (ip.header + 10) sum ip.header (inl (omega arith))) (
      add_words-ext (store16 m (ip.header + 10) sum) m ip.header 10 _ 0 0 refl
        λ x p q ne ne'. store16_ne m (ip.header + 10) sum x (ground arith))

-- The memory in which the computed checksum is stored.
abbrev pub checksummed : Memory → Ip4 → Memory
checksummed m ip = set_checksum m ip (complement (folded (header_sum m ip)))

checksum-set_checksum :
    (m : Memory) (ip : Ip4) (sum : ℕ) → sum < 2 ^ 16 → checksum (set_checksum m ip sum) ip ≡ sum
unfolding checksum set_checksum
checksum-set_checksum m ip sum h = load16-store16 m (ip.header + 10) sum h

pub calculate_checksum_inplace-eq :
    (m : Memory) (ip : Ip4) (fuel : ℕ)
    → 3 ≤ fuel
    → calculate_checksum_inplace fuel m ip ≡ some (checksummed m ip)
unfolding calculate_checksum_inplace
calculate_checksum_inplace-eq m ip fuel h =
    ap (Option.map (set_checksum m ip)) (calculate_checksum-eq m ip fuel h)

-- With fuel of 3 or more, `calculateChecksumInplace` always returns, and leaves a packet that
-- passes the test of the server: the checksum computed anew is the one that the header holds.
-- Only those two bytes change.
pub calculate_checksum_inplace_passes :
    (m : Memory) (ip : Ip4) (fuel : ℕ)
    → 3 ≤ fuel
    → (m' : Memory) × (calculate_checksum_inplace fuel m ip ≡ some m')
      × (calculate_checksum m' ip fuel ≡ some (checksum m' ip))
      × (m' ≡ set_checksum m ip (checksum m' ip))
calculate_checksum_inplace_passes m ip fuel h =
    let sum = complement (folded (header_sum m ip)) in
    let m' = checksummed m ip in
    (
      m',
      calculate_checksum_inplace-eq m ip fuel h,
      calculate_checksum-eq m' ip fuel h
          ∙ ap (λ (t : ℕ). some (complement (folded t))) (header_sum-set_checksum m ip sum)
          ∙ ap some (sym (checksum-set_checksum m ip sum (complement-lt _))),
      ap (set_checksum m ip) (sym (checksum-set_checksum m ip sum (complement-lt _))),
    )

pub set_checksum-IsBytes :
    (m : Memory) (ip : Ip4) (sum : ℕ) → IsBytes m → IsBytes (set_checksum m ip sum)
unfolding set_checksum store16
set_checksum-IsBytes m ip sum h = store-IsBytes _ _ _ (store-IsBytes _ _ _ h)

header_sum-word_sum :
    (m : Memory) (ip : Ip4)
    → IsBytes m
    → 5 ≤ header_len m ip
    → header_sum m ip + checksum m ip ≡ word_sum m ip.header (2 * header_len m ip)
unfolding checksum rounds header_len
header_sum-word_sum m ip bytes h =
    let n : ℕ = m ip.header % 16 in
    let twos : (n * 4 % 256 + 1) / 2 ≡ 2 * n = omega arith in
    rw twos (
      omega (
        arith,
        add_words-skip m ip.header 10 bytes (2 * n) 0 0 5 (omega arith) (omega arith) (omega arith),
        ap (λ (t : ℕ). word_sum m t (2 * n)) (add-zero ip.header),
      ))

pub header_len-set_checksum :
    (m : Memory) (ip : Ip4) (sum : ℕ) → header_len (set_checksum m ip sum) ip ≡ header_len m ip
unfolding header_len set_checksum
header_len-set_checksum m ip sum =
    ap (λ (t : ℕ). t % 16) (store16_ne m (ip.header + 10) sum ip.header (inl (omega arith)))

pub checksummed-ones :
    (m : Memory) (ip : Ip4)
    → IsBytes m
    → 5 ≤ header_len m ip
    → let m' = checksummed m ip in folded (word_sum m' ip.header (2 * header_len m' ip)) ≡ 65535
checksummed-ones m ip bytes long =
    let sum = complement (folded (header_sum m ip)) in
    let m' = checksummed m ip in
    ap folded (
      sym (
        header_sum-word_sum m' ip (set_checksum-IsBytes m ip sum bytes)
          (rw (header_len-set_checksum m ip sum) long)))
    ∙ ap folded (
        ap₂ ◌+◌ (header_sum-set_checksum m ip sum)
          (checksum-set_checksum m ip sum (complement-lt _)))
    ∙ folded-complement (header_sum m ip)

-- RFC 1071: for a header of 5 words or more, with the checksum that `calculateChecksumInplace`
-- stores, the 16-bit words of the header sum up to all ones. Fuel of 3 or more.
pub calculate_checksum_inplace_ones :
    (m : Memory) (ip : Ip4) (fuel : ℕ) {m' : Memory}
    → 3 ≤ fuel
    → IsBytes m
    → 5 ≤ header_len m ip
    → calculate_checksum_inplace fuel m ip ≡ some m'
    → folded (word_sum m' ip.header (2 * header_len m' ip)) ≡ 65535
calculate_checksum_inplace_ones m ip fuel {m'} h bytes long e =
    subst (λ (t : Memory). folded (word_sum t ip.header (2 * header_len t ip)) ≡ 65535)
      (some-injective _ _ (sym (calculate_checksum_inplace-eq m ip fuel h) ∙ e))
      (checksummed-ones m ip bytes long)

-- Both halves of a field that packs two are recovered, and make it up.
nibbles : passes_to (λ x. shr (bit_and x 0xf0) 4 == x / 16) 256 ≡ true
unfolding passes_to
nibbles = refl

pub version-header_len :
    (m : Memory) (ip : Ip4) → IsBytes m → version m ip * 16 + header_len m ip ≡ m ip.header
unfolding version header_len
version-header_len m ip bytes = omega (
  arith,
  (==_iff _ (m ip.header / 16)).0 (passes_to_at _ 256 (m ip.header) (bytes ip.header) nibbles),
)

-- The setters of the addresses are read back, and leave every other byte of memory alone.
pub set_source_ip_lem :
    (m : Memory) (ip : Ip4) (address : ℕ)
    → address < 2 ^ 32
    → let m' = set_source_ip m ip address in
      (source_ip m' ip ≡ address)
      × ((x : ℕ) → (x < ip.header + 12) ⊎ (ip.header + 16 ≤ x) → m' x ≡ m x)
unfolding set_source_ip source_ip
set_source_ip_lem m ip address h = (
  load32-store32 m (ip.header + 12) address h,
  λ x p. store32_ne m (ip.header + 12) address x (ground arith),
)

-- The payload ends where the total length says.
pub payload_end :
    (m : Memory) (ip : Ip4)
    → IsBytes m
    → header_len m ip * 4 ≤ total_len m ip
    → (payload m ip).address + (payload m ip).length ≡ ip.header + total_len m ip
unfolding payload total_len
payload_end m ip bytes h = omega (arith, load16-lt m (ip.header + 2) bytes)
