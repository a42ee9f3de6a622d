-- ===== src/Protocol/Tcp/Beyond.antt =====
-- The byte behind a segment of odd length, which `Tcp::calculateChecksum` sums.
use mathlib.Core.Option.{some-injective}
use zn_tunnel.Prelude.{ℕ, suc, ◌+◌, ◌*◌, ◌^◌, ◌≤◌, ◌<◌, ◌≡◌, sym, ◌∙◌, ap, ◌≢◌, arith}
use zn_tunnel.Memory.{Memory, store, load16}
use zn_tunnel.Memory.Laws.{IsBytes, store_ne, store_self, store-IsBytes, load16-ext}
use zn_tunnel.Protocol.Checksum.{rounds, complement}
use zn_tunnel.Protocol.Checksum.Fold.{folded}
use zn_tunnel.Protocol.Checksum.Sum.{word_sum, word_sum-snoc, word_sum-ext}
use zn_tunnel.Protocol.Tcp.{Tcp, checksum, calculate_checksum}
use zn_tunnel.Protocol.Tcp.Laws.{segment_sum, calculate_checksum-eq, pseudo_sum-ext}
use zn_tunnel.Protocol.Tcp.Reference.{segment_sum-word_sum}

-- One more in the sum is another checksum.
folded-suc : (s : ℕ) → complement (folded (s + 1)) ≢ complement (folded s)
unfolding folded complement
folded-suc s = ground arith

-- The last word of a segment of odd length takes in the byte behind the segment.
last_word :
    (m : Memory) (a half size : ℕ)
    → size ≡ 2 * half + 1
    → m (a + size) ≡ 0
    → word_sum (store m (a + size) 1) a (suc half) ≡ word_sum m a (suc half) + 1
last_word m a half size odd empty =
    let m' = store m (a + size) 1 in
    let next : a + 2 * half + 1 ≡ a + size = omega arith in
    let before = word_sum-ext m' m a half λ x p q. store_ne m (a + size) 1 x (omega arith) in
    let word : load16 m' (a + 2 * half) ≡ load16 m (a + 2 * half) + 1 =
      unfold load16 in
      omega (
        arith,
        store_ne m (a + size) 1 (a + 2 * half) (omega arith),
        ap m' next ∙ store_self m (a + size) 1 (omega arith),
        ap m next ∙ empty,
      ) in
    omega (arith, word_sum-snoc m' a half, word_sum-snoc m a half, before, word)

module _ (m : Memory) (tcp : Tcp) (half : ℕ) (bytes : IsBytes m) (odd : tcp.size ≡ 2 * half + 1)
    (long : 18 ≤ tcp.size) (short : tcp.size < 2 ^ 16) (behind : tcp.ip.header + 20 ≤ tcp.header)
    (empty : m (tcp.header + tcp.size) ≡ 0) where
  beyond_sum : segment_sum (store m (tcp.header + tcp.size) 1) tcp ≡ segment_sum m tcp + 1
  beyond_sum =
      let a : ℕ = tcp.header in
      let m' = store m (a + tcp.size) 1 in
      let half_rounds : rounds tcp.size ≡ suc half = unfold rounds in omega arith in
      let same_checksum : checksum m' tcp ≡ checksum m tcp =
        unfold checksum in
        load16-ext m' m (a + 16) (store_ne m (a + tcp.size) 1 (a + 16) (omega arith))
          (store_ne m (a + tcp.size) 1 (a + 16 + 1) (omega arith)) in
      let same_pseudo =
        pseudo_sum-ext m' m tcp λ x p q. store_ne m (a + tcp.size) 1 x (omega arith) in
      omega (
        arith,
        segment_sum-word_sum m tcp bytes long short,
        segment_sum-word_sum m' tcp (store-IsBytes m (a + tcp.size) 1 bytes) long short,
        ap (word_sum m a) half_rounds,
        ap (word_sum m' a) half_rounds,
        last_word m a half tcp.size odd empty,
        same_checksum,
        same_pseudo,
      )

  -- In a memory of bytes, for a segment of odd length, of 18 bytes or more and less than 2 ^ 16, behind a header of 20 bytes
  -- or more, the checksum is another one where the byte behind the segment is 1 and not 0: the last
  -- word takes it in, where RFC 793 pads with a zero. Fuel of 3 or more.
  pub calculate_checksum_reads_beyond :
      (fuel : ℕ)
      → 3 ≤ fuel
      → calculate_checksum (store m (tcp.header + tcp.size) 1) tcp fuel
        ≢ calculate_checksum m tcp fuel
  calculate_checksum_reads_beyond fuel h e = folded-suc (segment_sum m tcp) (
      sym (ap (λ (t : ℕ). complement (folded t)) beyond_sum)
      ∙ some-injective _ _ (
          sym (
            calculate_checksum-eq (store m (tcp.header + tcp.size) 1) tcp fuel h
              (omega (arith, short)))
          ∙ e
          ∙ calculate_checksum-eq m tcp fuel h (omega (arith, short))))
