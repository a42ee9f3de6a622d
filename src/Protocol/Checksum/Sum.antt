-- ===== src/Protocol/Checksum/Sum.antt =====
-- The summing loop against a plain sum of 16-bit words.
use zn_tunnel.Prelude.{
  ℕ, zero, suc, ◌+◌, ◌*◌, ◌%◌, ◌^◌, ◌≤◌, ◌<◌, ◌≡◌, refl, ◌∙◌, ◌≢◌, ap, ap₂, Bool, true, false,
  arith, ◌==◌, if◌then◌else◌, u32,
}
use zn_tunnel.Memory.{Memory, load16}
use zn_tunnel.Memory.Laws.{IsBytes, load16-lt, load16-ext}
use zn_tunnel.Protocol.Checksum.{add_words}

-- The sum of the `n` big-endian words from an address on.
unfoldable pub word_sum : Memory → ℕ → ℕ → ℕ
word_sum m a zero = 0
word_sum m a (suc n) = load16 m a + word_sum m (a + 2) n

pub word_sum-le : (m : Memory) (a n : ℕ) → IsBytes m → word_sum m a n ≤ n * 65535
unfolding word_sum
word_sum-le m a zero h = omega arith
word_sum-le m a (suc n) h = omega (arith, load16-lt m a h, word_sum-le m (a + 2) n h)

module _ (m : Memory) (a skip : ℕ) (bytes : IsBytes m) where
  -- Past the skipped word, or beside it, the loop adds every word.
  pub add_words-past :
      (n i sum : ℕ)
      → skip < i
      → sum + n * 65535 < 2 ^ 32
      → add_words m a skip n i sum ≡ sum + word_sum m (a + i) n
  unfolding add_words word_sum load16
  add_words-past zero i sum h k = omega arith
  add_words-past (suc n) i sum h k = ground (
    arith,
    bytes (a + i),
    bytes (a + i + 1),
    ap (λ (t : ℕ). word_sum m t n) (add_shift a i),
    add_words-past n (i + 2) (sum + (m (a + i) * 2 ^ 8 + m (a + i + 1))),
  )
    where
      add_shift : (x y : ℕ) → x + (y + 2) ≡ x + y + 2
      add_shift x y = omega arith

  -- Up to the skipped word, the loop adds every word but that.
  pub add_words-skip :
      (n i sum k : ℕ)
      → skip ≡ i + 2 * k
      → k < n
      → sum + n * 65535 < 2 ^ 32
      → add_words m a skip n i sum + load16 m (a + skip) ≡ sum + word_sum m (a + i) n
  unfolding add_words word_sum load16
  add_words-skip zero i sum k e h b = absurd (omega arith)
  add_words-skip (suc n) i sum zero e h b = ground (
    arith,
    ap (λ (t : ℕ). word_sum m t n) (add_shift a i),
    ap m (ap (◌+◌ a) e'),
    ap m (ap (λ (t : ℕ). a + t + 1) e'),
    add_words-past n (i + 2) sum,
  )
    where
      add_shift : (x y : ℕ) → x + (y + 2) ≡ x + y + 2
      add_shift x y = omega arith

      e' : skip ≡ i
      e' = omega arith
  add_words-skip (suc n) i sum (suc k) e h b = ground (
    arith,
    bytes (a + i),
    bytes (a + i + 1),
    ap (λ (t : ℕ). word_sum m t n) (add_shift a i),
    add_words-skip n (i + 2) (sum + (m (a + i) * 2 ^ 8 + m (a + i + 1))) k,
  )
    where
      add_shift : (x y : ℕ) → x + (y + 2) ≡ x + y + 2
      add_shift x y = omega arith

-- The loop does not read the skipped word, nor anything beyond its last word.
module _ (m m' : Memory) (a skip : ℕ) where
  add_words-ext_step :
      (i sum : ℕ)
      → (i + skip) % 2 ≡ 0
      → ((x : ℕ) → a + i ≤ x → x < a + i + 2 → x ≢ a + skip → x ≢ a + skip + 1 → m x ≡ m' x)
      → (if i == skip then sum else u32 (sum + (m (a + i) * 2 ^ 8 + m (a + i + 1))))
        ≡ (if i == skip then sum else u32 (sum + (m' (a + i) * 2 ^ 8 + m' (a + i + 1))))
  add_words-ext_step i sum e h = ground (arith, h (a + i), h (a + i + 1))

  pub add_words-ext :
      (n i sum : ℕ)
      → (i + skip) % 2 ≡ 0
      → ((x : ℕ) → a + i ≤ x → x < a + i + 2 * n → x ≢ a + skip → x ≢ a + skip + 1 → m x ≡ m' x)
      → add_words m a skip n i sum ≡ add_words m' a skip n i sum
  unfolding add_words
  add_words-ext zero i sum e h = refl
  add_words-ext (suc n) i sum e h =
      ap (add_words m a skip n (i + 2))
        (add_words-ext_step i sum e (λ x p q. h x (omega arith) (omega arith)))
      ∙ add_words-ext n (i + 2) _ (omega arith) (λ x p q. h x (omega arith) (omega arith))

pub add_words-lt :
    (m : Memory) (a skip n i sum : ℕ) → sum < 2 ^ 32 → add_words m a skip n i sum < 2 ^ 32
unfolding add_words
add_words-lt m a skip zero i sum h = h
add_words-lt m a skip (suc n) i sum h = add_words-lt m a skip n (i + 2) _ (next_lt (i == skip) _ h)
  where
    next_lt : (b : Bool) (t : ℕ) → sum < 2 ^ 32 → (if b then sum else u32 t) < 2 ^ 32
    next_lt true t k = k
    next_lt false t k = omega arith

-- One byte more in the last word.
pub word_sum-snoc :
    (m : Memory) (a n : ℕ) → word_sum m a (suc n) ≡ word_sum m a n + load16 m (a + 2 * n)
unfolding word_sum
word_sum-snoc m a zero = omega (arith, ap (load16 m) (add_zero a))
  where
    add_zero : (x : ℕ) → x ≡ x + 2 * 0
    add_zero x = omega arith
word_sum-snoc m a (suc n) = omega (arith, word_sum-snoc m (a + 2) n, ap (load16 m) (shift a n))
  where
    shift : (x y : ℕ) → x + 2 + 2 * y ≡ x + 2 * suc y
    shift x y = omega arith

pub word_sum-ext :
    (m m' : Memory) (a n : ℕ)
    → ((x : ℕ) → a ≤ x → x < a + 2 * n → m x ≡ m' x)
    → word_sum m a n ≡ word_sum m' a n
unfolding word_sum
word_sum-ext m m' a zero h = refl
word_sum-ext m m' a (suc n) h =
    ap₂ ◌+◌
      (load16-ext m m' a (h a (omega arith) (omega arith)) (h (a + 1) (omega arith) (omega arith)))
      (word_sum-ext m m' (a + 2) n (λ x p q. h x (omega arith) (omega arith)))
