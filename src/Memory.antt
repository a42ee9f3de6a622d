-- ===== src/Memory.antt =====
-- The bytes that raw pointers reach: an address space, read and written by value.
pub mod Laws
use zn_tunnel.Prelude.{ℕ, zero, suc, ◌+◌, ◌*◌, ◌/◌, List, [], ◌∷◌, ◌==◌, if◌then◌else◌, u8}

abbrev pub Memory : Type 0
Memory = ℕ → ℕ

unfoldable pub store : Memory → ℕ → ℕ → Memory
store m a v x = if x == a then u8 v else m x

-- big_to_native of what stands at an address, of 16 and of 32 bits.
unfoldable pub load16 : Memory → ℕ → ℕ
load16 m a = m a * 256 + m (a + 1)

unfoldable pub load32 : Memory → ℕ → ℕ
load32 m a = m a * 16777216 + m (a + 1) * 65536 + m (a + 2) * 256 + m (a + 3)

-- The assignment of native_to_big of a value.
unfoldable pub store16 : Memory → ℕ → ℕ → Memory
unfolding store
store16 m a v = store (store m a (v / 256)) (a + 1) v

unfoldable pub store32 : Memory → ℕ → ℕ → Memory
unfolding store
store32 m a v =
    store (store (store (store m a (v / 16777216)) (a + 1) (v / 65536)) (a + 2) (v / 256)) (a + 3) v

-- The `n` bytes from an address on.
unfoldable pub load_list : Memory → ℕ → ℕ → List ℕ
load_list m a zero = []
load_list m a (suc n) = m a ∷ load_list m (a + 1) n

-- std::memcpy of bytes that stand elsewhere.
unfoldable pub store_list : Memory → ℕ → List ℕ → Memory
store_list m a [] = m
store_list m a (v ∷ vs) = store_list (store m a v) (a + 1) vs
