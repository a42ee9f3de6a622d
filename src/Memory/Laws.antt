-- ===== src/Memory/Laws.antt =====
-- What a read finds after a write.
use zn_tunnel.Prelude.{
  ℕ, zero, suc, ◌+◌, ◌≤◌, ◌<◌, ◌^◌, ◌≡◌, refl, ap, ap₂, ◌∙◌, ◌⊎◌, inl, ◌≢◌, List, [], ◌∷◌, arith,
  length, All,
}
use zn_tunnel.Memory.{Memory, store, load16, load32, store16, store32, load_list, store_list}

abbrev pub IsByte : ℕ → Type 0
IsByte v = v < 256

-- Every byte that memory holds is one.
abbrev pub IsBytes : Memory → Type 0
IsBytes m = (a : ℕ) → m a < 256

pub store_self : (m : Memory) (a v : ℕ) → v < 256 → store m a v a ≡ v
unfolding store
store_self m a v h = ground arith

pub store_ne : (m : Memory) (a v x : ℕ) → x ≢ a → store m a v x ≡ m x
unfolding store
store_ne m a v x h = ground arith

pub store-IsBytes : (m : Memory) (a v : ℕ) → IsBytes m → IsBytes (store m a v)
unfolding store
store-IsBytes m a v h x = ground (arith, h x)

pub load16-store16 : (m : Memory) (a v : ℕ) → v < 2 ^ 16 → load16 (store16 m a v) a ≡ v
unfolding load16 store16
load16-store16 m a v h = ground arith

pub store16_ne : (m : Memory) (a v x : ℕ) → (x < a) ⊎ (a + 2 ≤ x) → store16 m a v x ≡ m x
unfolding store16
store16_ne m a v x h = ground arith

pub load32-store32 : (m : Memory) (a v : ℕ) → v < 2 ^ 32 → load32 (store32 m a v) a ≡ v
unfolding load32 store32
load32-store32 m a v h = ground arith

pub store32_ne : (m : Memory) (a v x : ℕ) → (x < a) ⊎ (a + 4 ≤ x) → store32 m a v x ≡ m x
unfolding store32
store32_ne m a v x h = ground arith

pub load16-lt : (m : Memory) (a : ℕ) → IsBytes m → load16 m a < 2 ^ 16
unfolding load16
load16-lt m a h = omega (arith, h a, h (a + 1))

pub load16-ext :
    (m m' : Memory) (a : ℕ) → m a ≡ m' a → m (a + 1) ≡ m' (a + 1) → load16 m a ≡ load16 m' a
unfolding load16
load16-ext m m' a p q = omega arith

pub load32-ext :
    (m m' : Memory) (a : ℕ) → ((x : ℕ) → a ≤ x → x < a + 4 → m x ≡ m' x) → load32 m a ≡ load32 m' a
unfolding load32
load32-ext m m' a h = omega (
  arith,
  h a (omega arith) (omega arith),
  h (a + 1) (omega arith) (omega arith),
  h (a + 2) (omega arith) (omega arith),
  h (a + 3) (omega arith) (omega arith),
)

pub load32-lt : (m : Memory) (a : ℕ) → IsBytes m → load32 m a < 2 ^ 32
unfolding load32
load32-lt m a h = omega (arith, h a, h (a + 1), h (a + 2), h (a + 3))

pub store_list_outside :
    (m : Memory) (a : ℕ) (vs : List ℕ) (x : ℕ)
    → (x < a) ⊎ (a + length vs ≤ x)
    → store_list m a vs x ≡ m x
unfolding store_list
store_list_outside m a [] x h = refl
store_list_outside m a (v ∷ vs) x h =
    ground (arith, store_list_outside (store m a v) (a + 1) vs x, store_ne m a v x)

pub load_list-ext :
    (m m' : Memory) (a n : ℕ)
    → ((x : ℕ) → a ≤ x → x < a + n → m x ≡ m' x)
    → load_list m a n ≡ load_list m' a n
unfolding load_list
load_list-ext m m' a zero h = refl
load_list-ext m m' a (suc n) h =
    ap₂ ◌∷◌ (h a (omega arith) (omega arith))
      (load_list-ext m m' (a + 1) n (λ x p q. h x (omega arith) (omega arith)))

pub load_list-store_list :
    (m : Memory) (a : ℕ) (vs : List ℕ)
    → All IsByte vs
    → load_list (store_list m a vs) a (length vs) ≡ vs
unfolding load_list store_list
load_list-store_list m a [] h = refl
load_list-store_list m a (v ∷ vs) h =
    ap₂ ◌∷◌
      (store_list_outside (store m a v) (a + 1) vs a (inl (omega arith)) ∙ store_self m a v h.0)
      (load_list-store_list (store m a v) (a + 1) vs h.1)

pub length-load_list : (m : Memory) (a n : ℕ) → length (load_list m a n) ≡ n
unfolding load_list
length-load_list m a zero = refl
length-load_list m a (suc n) = ap suc (length-load_list m (a + 1) n)

pub store_list-IsBytes :
    (m : Memory) (a : ℕ) (vs : List ℕ) → IsBytes m → IsBytes (store_list m a vs)
unfolding store_list
store_list-IsBytes m a [] h = h
store_list-IsBytes m a (v ∷ vs) h =
    store_list-IsBytes (store m a v) (a + 1) vs (store-IsBytes m a v h)

-- Equal runs of bytes, taken apart at the first.
pub load_list_split :
    (m m' : Memory) (a b n : ℕ)
    → load_list m a (suc n) ≡ load_list m' b (suc n)
    → (m a ≡ m' b) × (load_list m (a + 1) n ≡ load_list m' (b + 1) n)
unfolding load_list
load_list_split m m' a b n e = ground (arith, e)
