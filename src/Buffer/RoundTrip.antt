-- ===== src/Buffer/RoundTrip.antt =====
-- What `writeBuffer` writes, `readBuffer` reads, and nothing else is touched.
use zn_tunnel.Prelude.{
  ℕ, ◌+◌, ◌≤◌, ◌<◌, ◌^◌, ◌≡◌, refl, ◌∙◌, List, [], ◌∷◌, true, false, arith, length, All, ◌⊎◌, inl,
  take, ap,
}
use zn_tunnel.Memory.{Memory, load16, store16, store_list}
use zn_tunnel.Memory.Laws.{
  IsByte, load16-store16, load16-ext, store16_ne, store_list_outside, load_list-store_list,
}
use zn_tunnel.Buffer.{Buffer, resize, suffix_space, read_string, write_string}
use zn_tunnel.Buffer.Bounds.{IsValid, spaces_add}

pub take_all {ℓ} : {A : Type ℓ} (xs : List A) → take (length xs) xs ≡ xs
take_all [] = refl
take_all (x ∷ xs) = ap (◌∷◌ x) (take_all xs)

-- `str` fits behind its length at `from`, with a byte to spare.
pub record Fits (b : Buffer) (str : List ℕ) (from : ℕ) : Type 0 where
  pub bytes : All IsByte str
  pub short : length str < 2 ^ 16
  pub low : from + length str + 2 < 2 ^ 32
  pub room : b.start + from + length str + 2 < b.internal + b.internal_size

-- The memory with the length and the bytes of `str` at `a`.
abbrev pub framed : Memory → ℕ → List ℕ → Memory
framed m a str = store_list (store16 m a (length str)) (a + 2) str

pub load16-framed :
    (m : Memory) (a : ℕ) (str : List ℕ)
    → length str < 2 ^ 16
    → load16 (framed m a str) a ≡ length str
load16-framed m a str h =
    load16-ext (framed m a str) (store16 m a (length str)) a
      (store_list_outside (store16 m a (length str)) (a + 2) str a (inl (omega arith)))
      (store_list_outside (store16 m a (length str)) (a + 2) str (a + 1) (inl (omega arith)))
    ∙ load16-store16 m a (length str) h

-- A string that fits is accepted, is stored behind its length, and extends the window if need be.
pub write_string_lem :
    (m : Memory) {b : Buffer} (str : List ℕ) (from : ℕ)
    → IsValid b
    → Fits b str from
    → let w = write_string m b str from in
      (w.accepted ≡ true)
      × (w.memory ≡ framed m (b.start + from) str)
      × (w.buffer ≡ record b { size = w.buffer.size })
      × (b.size ≤ w.buffer.size)
      × (from + length str + 2 ≤ w.buffer.size)
unfolding write_string resize suffix_space
write_string_lem m {b} str from v f = ground (arith, spaces_add v, take_all str)

-- Reading back: two steps, for the length and for the bytes.
read_string-framed :
    (m : Memory) (b : Buffer) (str : List ℕ) (from : ℕ)
    → All IsByte str
    → length str < 2 ^ 16
    → from + length str + 2 < 2 ^ 32
    → from + length str + 2 ≤ b.size
    → read_string (framed m (b.start + from) str) b from ≡ str
unfolding read_string
read_string-framed m b str from bytes short low room = ground (
  arith,
  load16-framed m (b.start + from) str short,
  load_list-store_list (store16 m (b.start + from) (length str)) (b.start + from + 2) str bytes,
)

-- In a valid buffer, a string of less than 2 ^ 16 bytes reads back at the offset at which it was
-- written, where behind its two bytes of length it ends before the last byte of the block, which stays
-- free, and before offset 2 ^ 32.
pub read_string-write_string :
    (m : Memory) {b : Buffer} (str : List ℕ) (from : ℕ)
    → IsValid b
    → Fits b str from
    → let w = write_string m b str from in read_string w.memory w.buffer from ≡ str
read_string-write_string m {b} str from v f = ground (
  arith,
  write_string_lem m str from v f,
  read_string-framed m (record b { size = (write_string m b str from).buffer.size }) str from
      f.bytes f.short f.low,
)

-- Only the length and the bytes of the string are written.
pub write_string_frame :
    (m : Memory) {b : Buffer} (str : List ℕ) (from x : ℕ)
    → IsValid b
    → Fits b str from
    → (x < b.start + from) ⊎ (b.start + from + length str + 2 ≤ x)
    → (write_string m b str from).memory x ≡ m x
write_string_frame m {b} str from x v f h = ground (
  arith,
  write_string_lem m str from v f,
  store_list_outside (store16 m (b.start + from) (length str)) (b.start + from + 2) str x,
  store16_ne m (b.start + from) (length str) x,
)

-- A string that does not fit is refused, and nothing changes.
pub write_string_refused :
    (m : Memory) {b : Buffer} (str : List ℕ) (from : ℕ)
    → IsValid b
    → from + length str + 2 < 2 ^ 32
    → length str < 2 ^ 16
    → b.internal + b.internal_size ≤ b.start + from + length str + 2
    → let w = write_string m b str from in (w.accepted ≡ false) × (w.memory ≡ m) × (w.buffer ≡ b)
unfolding write_string suffix_space
write_string_refused m {b} str from v low short full = ground (arith, spaces_add v)
