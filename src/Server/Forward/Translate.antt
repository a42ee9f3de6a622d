-- ===== src/Server/Forward/Translate.antt =====
-- What a TCP packet of a client looks like when it goes out.
use zn_tunnel.Protocol.Checksum.Fold.{folded}
use zn_tunnel.Protocol.Checksum.Sum.{word_sum}
use zn_tunnel.Prelude.{◌*◌, ◌%◌, ℕ, ◌+◌, ◌^◌, ◌≤◌, ◌<◌, ◌≡◌, ap, ◌∙◌, ◌⊎◌, inl, inr, arith}
use zn_tunnel.Memory.{Memory, store16, store32}
use zn_tunnel.Memory.Laws.{
  IsBytes, store16_ne, store32_ne, load16-store16, load32-store32, load16-ext, load32-ext,
  store-IsBytes,
}
use zn_tunnel.Containers.Order.{nat_eq}
use zn_tunnel.Napt.{Napt}
use zn_tunnel.Protocol.Ip4
use zn_tunnel.Protocol.Ip4.Laws as HeaderLaws
use zn_tunnel.Protocol.Ip4.{Ip4}
use zn_tunnel.Protocol.Tcp
use zn_tunnel.Protocol.Tcp.Laws as SegmentLaws
use zn_tunnel.Protocol.Tcp.Reference
use zn_tunnel.Protocol.Tcp.{Tcp}

-- The packet that the branch leaves in memory.
abbrev translated : Memory → Ip4 → Tcp → ℕ → ℕ → Memory
translated m ip4 segment port address =
    HeaderLaws.checksummed
      (SegmentLaws.checksummed (Ip4.set_source_ip (Tcp.set_source_port m segment port) ip4 address)
        segment)
      ip4

-- The ports, the addresses and the two checksums of a segment behind its header: with them, the words
-- of the header, and those of the pseudo header and the segment, sum up to all ones, as RFC 1071 and
-- RFC 793 have it.
pub record IsTranslated (m m' : Memory) (ip4 : Ip4) (segment : Tcp) (port address : ℕ)
    : Type 0 where
  pub source_ip : Ip4.source_ip m' ip4 ≡ address
  pub dest_ip : Ip4.dest_ip m' ip4 ≡ Ip4.dest_ip m ip4
  pub source_port : Tcp.source_port m' segment ≡ port
  pub dest_port : Tcp.dest_port m' segment ≡ Tcp.dest_port m segment
  pub header_sums_up : folded (word_sum m' ip4.header (2 * Ip4.header_len m' ip4)) ≡ 65535
  pub segment_sums_up : folded (Reference.reference_sum m' segment) ≡ 65535

module _ (m : Memory) (ip4 : Ip4) (size port address : ℕ) (start : ℕ)
    (behind : ip4.header + 20 ≤ start) (port_fits : port < 2 ^ 16) (address_fits : address < 2 ^ 32)
    (bytes : IsBytes m) (words : 5 ≤ Ip4.header_len m ip4) (long : 18 ≤ size)
    (short : size < 2 ^ 16) (padded : (size % 2 ≡ 0) ⊎ (m (start + size) ≡ 0)) where
  abbrev segment : Tcp
  segment = record { header = start; size = size; ip = ip4 }

  abbrev ported : Memory
  ported = Tcp.set_source_port m segment port

  abbrev sourced : Memory
  sourced = Ip4.set_source_ip ported ip4 address

  abbrev summed : Memory
  summed = SegmentLaws.checksummed sourced segment

  abbrev final : Memory
  final = HeaderLaws.checksummed summed ip4

  final_outside : (x : ℕ) → (x < ip4.header + 10) ⊎ (ip4.header + 12 ≤ x) → final x ≡ summed x
  unfolding Ip4.set_checksum
  final_outside x h = store16_ne summed (ip4.header + 10) _ x (ground (arith, h))

  summed_outside : (x : ℕ) → (x < start + 16) ⊎ (start + 18 ≤ x) → summed x ≡ sourced x
  unfolding Tcp.set_checksum
  summed_outside x h = store16_ne sourced (start + 16) _ x (ground (arith, h))

  sourced_outside : (x : ℕ) → (x < ip4.header + 12) ⊎ (ip4.header + 16 ≤ x) → sourced x ≡ ported x
  unfolding Ip4.set_source_ip
  sourced_outside x h = store32_ne ported (ip4.header + 12) address x (ground (arith, h))

  ported_outside : (x : ℕ) → (x < start) ⊎ (start + 2 ≤ x) → ported x ≡ m x
  unfolding Tcp.set_source_port
  ported_outside x h = store16_ne m start port x (ground (arith, h))

  -- Bytes that neither checksum takes up.
  unsummed :
      (x : ℕ)
      → (x < ip4.header + 10) ⊎ (ip4.header + 12 ≤ x)
      → (x < start + 16) ⊎ (start + 18 ≤ x)
      → final x ≡ sourced x
  unsummed x h k = final_outside x h ∙ summed_outside x k

  ported-IsBytes : IsBytes ported
  unfolding Tcp.set_source_port store16
  ported-IsBytes = store-IsBytes _ _ _ (store-IsBytes _ _ _ bytes)

  sourced-IsBytes : IsBytes sourced
  unfolding Ip4.set_source_ip store32
  sourced-IsBytes =
      store-IsBytes _ _ _
        (store-IsBytes _ _ _ (store-IsBytes _ _ _ (store-IsBytes _ _ _ ported-IsBytes)))

  header_words : 5 ≤ Ip4.header_len summed ip4
  unfolding Ip4.header_len
  header_words = omega (
    arith,
    words,
    summed_outside ip4.header (inl (omega (arith, behind))),
    sourced_outside ip4.header (inl (omega arith)),
    ported_outside ip4.header (inl (omega (arith, behind))),
  )

  header-final : folded (word_sum final ip4.header (2 * Ip4.header_len final ip4)) ≡ 65535
  header-final =
      HeaderLaws.checksummed-ones summed ip4
        (Reference.set_checksum-IsBytes sourced segment _ sourced-IsBytes) header_words

  still-IsPadded : Reference.IsPadded sourced segment
  still-IsPadded = ground (
    arith,
    padded,
    sourced_outside (start + size) (inr (omega (arith, behind))),
    ported_outside (start + size) (inr (omega (arith, long))),
  )

  segment-final : folded (Reference.reference_sum final segment) ≡ 65535
  segment-final =
      ap folded (Reference.reference_sum-ext final summed segment behind long final_outside)
      ∙ Reference.checksummed-reference sourced segment behind sourced-IsBytes long short
          still-IsPadded

  pub final-IsTranslated : IsTranslated m final ip4 segment port address
  unfolding Ip4.source_ip Ip4.dest_ip Tcp.source_port Tcp.dest_port Ip4.set_source_ip
      Tcp.set_source_port
  final-IsTranslated = record {
    source_ip =
        load32-ext final sourced (ip4.header + 12) (λ x p q. unsummed x (inr p) (inl (omega arith)))
        ∙ load32-store32 ported (ip4.header + 12) address address_fits;
    dest_ip = load32-ext final m (ip4.header + 16) (λ x p q.
        unsummed x (inr (omega arith)) (inl (omega arith))
        ∙ sourced_outside x (inr p)
        ∙ ported_outside x (inl (omega arith)));
    source_port =
        load16-ext final ported start
          (unsummed start (inr (omega arith)) (inl (omega arith))
            ∙ sourced_outside start (inr (omega arith)))
          (unsummed (start + 1) (inr (omega arith)) (inl (omega arith))
            ∙ sourced_outside (start + 1) (inr (omega arith)))
        ∙ load16-store16 m start port port_fits;
    dest_port =
        load16-ext final m (start + 2) (untouched (start + 2) (omega arith) (omega arith))
          (untouched (start + 2 + 1) (omega arith) (omega arith));
    header_sums_up = header-final;
    segment_sums_up = segment-final;
  }
    where
      untouched : (x : ℕ) → start + 2 ≤ x → x < start + 16 → final x ≡ m x
      untouched x p q =
          unsummed x (inr (omega arith)) (inl q)
          ∙ sourced_outside x (inr (omega arith))
          ∙ ported_outside x (inr p)
