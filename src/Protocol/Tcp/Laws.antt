-- ===== src/Protocol/Tcp/Laws.antt =====
-- The checksum that `Tcp::calculateChecksumInplace` leaves.
use mathlib.Core.Option
use mathlib.Core.Option.{some-injective}
use zn_tunnel.Prelude.{
  ltb, true, ◌-◌, ℕ, ◌+◌, ◌^◌, ◌≤◌, ◌<◌, ◌≡◌, refl, ◌∙◌, ap, ◌⊎◌, inl, inr, some, arith,
}
use zn_tunnel.Memory.{Memory, load32, store16}
use zn_tunnel.Memory.Laws.{store16_ne, load16-store16}
use zn_tunnel.Protocol.Checksum.{add_words, rounds, complement}
use zn_tunnel.Protocol.Checksum.Fold.{folded, fold_carries-folded}
use zn_tunnel.Protocol.Checksum.Sum.{add_words-ext, add_words-lt}
use zn_tunnel.Protocol.Tcp.{
  Tcp, checksum, pseudo_sum, calculate_checksum, set_checksum, calculate_checksum_inplace,
}

-- What the summing loop of the segment finds.
abbrev pub segment_sum : Memory → Tcp → ℕ
segment_sum m tcp = add_words m tcp.header 16 (rounds tcp.size) 0 (pseudo_sum m tcp)

pub pseudo_sum-lt : (m : Memory) (tcp : Tcp) → pseudo_sum m tcp < 2 ^ 32
unfolding pseudo_sum
pseudo_sum-lt m tcp = omega arith

-- The checksum of a segment that the `int` counts is computed: three rounds of the carry loop are
-- enough.
pub calculate_checksum-eq :
    (m : Memory) (tcp : Tcp) (fuel : ℕ)
    → 3 ≤ fuel
    → tcp.size < 2 ^ 31 - 1
    → calculate_checksum m tcp fuel ≡ some (complement (folded (segment_sum m tcp)))
unfolding calculate_checksum
calculate_checksum-eq m tcp fuel h counted =
    let inside : ltb tcp.size (2 ^ 31 - 1) ≡ true = ground (arith, counted) in
    rw inside (
      ap (Option.map complement) (
        fold_carries-folded fuel (segment_sum m tcp)
          (add_words-lt m tcp.header 16 _ 0 _ (pseudo_sum-lt m tcp)) h))

-- The pseudo header reads the protocol and the two addresses, bytes 9 and 12 to 19 of the packet.
pub pseudo_sum-ext :
    (m m' : Memory) (tcp : Tcp)
    → ((x : ℕ)
        → (x ≡ tcp.ip.header + 9) ⊎ (tcp.ip.header + 12 ≤ x)
        → x < tcp.ip.header + 20
        → m x ≡ m' x)
    → pseudo_sum m tcp ≡ pseudo_sum m' tcp
unfolding pseudo_sum load32
pseudo_sum-ext m m' tcp h =
    let a : ℕ = tcp.ip.header in
    rw (
      h (a + 9) (inl refl) (omega arith),
      h (a + 12) (inr (omega arith)) (omega arith),
      h (a + 12 + 1) (inr (omega arith)) (omega arith),
      h (a + 12 + 2) (inr (omega arith)) (omega arith),
      h (a + 12 + 3) (inr (omega arith)) (omega arith),
      h (a + 16) (inr (omega arith)) (omega arith),
      h (a + 16 + 1) (inr (omega arith)) (omega arith),
      h (a + 16 + 2) (inr (omega arith)) (omega arith),
      h (a + 16 + 3) (inr (omega arith)) (omega arith),
    )

-- The memory in which the computed checksum is stored.
abbrev pub checksummed : Memory → Tcp → Memory
checksummed m tcp = set_checksum m tcp (complement (folded (segment_sum m tcp)))

pub calculate_checksum_inplace-eq :
    (m : Memory) (tcp : Tcp) (fuel : ℕ)
    → 3 ≤ fuel
    → tcp.size < 2 ^ 31 - 1
    → calculate_checksum_inplace fuel m tcp ≡ some (checksummed m tcp)
unfolding calculate_checksum_inplace
calculate_checksum_inplace-eq m tcp fuel h counted =
    ap (Option.map (set_checksum m tcp)) (calculate_checksum-eq m tcp fuel h counted)

-- Of the packet in front of the segment, the checksum may change unnoticed.
pub segment_sum-ext :
    (m m' : Memory) (tcp : Tcp)
    → tcp.ip.header + 20 ≤ tcp.header
    → ((x : ℕ) → (x < tcp.ip.header + 10) ⊎ (tcp.ip.header + 12 ≤ x) → m x ≡ m' x)
    → segment_sum m tcp ≡ segment_sum m' tcp
segment_sum-ext m m' tcp behind h =
    ap (add_words m tcp.header 16 (rounds tcp.size) 0)
      (pseudo_sum-ext m m' tcp λ x p q. h x (ground (arith, p)))
    ∙ add_words-ext m m' tcp.header 16 _ 0 _ refl λ x p q ne ne'. h x (inr (omega arith))

module _ (m : Memory) (tcp : Tcp) (behind : tcp.ip.header + 20 ≤ tcp.header) where
  -- Writing the checksum does not change what it is computed from.
  pub segment_sum-set_checksum :
      (sum : ℕ) → segment_sum (set_checksum m tcp sum) tcp ≡ segment_sum m tcp
  unfolding set_checksum
  segment_sum-set_checksum sum =
      ap (add_words (store16 m (tcp.header + 16) sum) tcp.header 16 (rounds tcp.size) 0) (
        pseudo_sum-ext (store16 m (tcp.header + 16) sum) m tcp
          λ x p q. store16_ne m (tcp.header + 16) sum x (inl (omega arith)))
      ∙ add_words-ext (store16 m (tcp.header + 16) sum) m tcp.header 16 _ 0 _ refl
          λ x p q ne ne'. store16_ne m (tcp.header + 16) sum x (ground arith)

  pub checksum-set_checksum : (sum : ℕ) → sum < 2 ^ 16 → checksum (set_checksum m tcp sum) tcp ≡ sum
  unfolding checksum set_checksum
  checksum-set_checksum sum h = load16-store16 m (tcp.header + 16) sum h
