-- ===== src/Buffer/Bounds.antt =====
-- The window of a `Buffer` stays inside its block, and no length wraps.
use zn_tunnel.Prelude.{
  ℕ, ◌+◌, ◌-◌, ◌≤◌, ◌<◌, ◌^◌, ◌≡◌, List, arith, ℤ, pos, negsuc, ◌⊎◌, u32, if◌then◌else◌, leb,
}
use zn_tunnel.Memory.{Memory}
use zn_tunnel.Memory.Laws.{IsBytes, load16-lt}
use zn_tunnel.Buffer.{
  Buffer, new_buffer, prefix_space, suffix_space, resize, shift, move_front_boundary,
  move_back_boundary, read_buffer, read_buffer_from_front, write_buffer,
}

-- The window lies in the block, which is shorter than 2 ^ 31 bytes and does not wrap.
pub record IsValid (b : Buffer) : Type 0 where
  pub after : b.internal ≤ b.start
  pub within : b.start + b.size ≤ b.internal + b.internal_size
  pub short : b.internal_size < 2 ^ 31
  pub mapped : b.internal + b.internal_size < 2 ^ 64

pub prefix_space-eq : {b : Buffer} → IsValid b → prefix_space b ≡ b.start - b.internal
unfolding prefix_space
prefix_space-eq v = omega arith

-- The two spaces and the window make up the block: neither getter wraps.
pub spaces_add :
    {b : Buffer} → IsValid b → prefix_space b + b.size + suffix_space b ≡ b.internal_size
unfolding prefix_space suffix_space
spaces_add v = omega arith

pub new_buffer-IsValid :
    (address len : ℕ) → len < 2 ^ 31 → address + len < 2 ^ 64 → IsValid (new_buffer address len)
unfolding new_buffer
new_buffer-IsValid address len h k = omega arith

-- The block itself never changes.
abbrev pub SameBlock : Buffer → Buffer → Type 0
SameBlock b b' = (b'.internal ≡ b.internal) × (b'.internal_size ≡ b.internal_size)

pub resize-IsValid :
    {b : Buffer} (len : ℕ) → IsValid b → IsValid (resize b len) × SameBlock b (resize b len)
unfolding resize
resize-IsValid len v = ground arith

-- `size(len)` takes effect exactly when the length fits.
pub resize_lem :
    {b : Buffer} (len : ℕ)
    → IsValid b
    → (resize b len).size
      ≡ (if leb (b.start + len) (b.internal + b.internal_size) then len else b.size)
unfolding resize
resize_lem len v = ground arith

pub shift-IsValid : {b : Buffer} (d : ℤ) → IsValid b → IsValid (shift b d) × SameBlock b (shift b d)
unfolding shift
shift-IsValid (pos n) v = ground arith
shift-IsValid (negsuc n) v = ground arith

-- `moveFrontBoundary` keeps a buffer of less than 2 ^ 31 bytes within its block, by whatever
-- distance it is called.
pub move_front_boundary-IsValid :
    {b : Buffer} (d : ℤ)
    → IsValid b
    → IsValid (move_front_boundary b d) × SameBlock b (move_front_boundary b d)
unfolding move_front_boundary
move_front_boundary-IsValid (pos n) v = ground arith
move_front_boundary-IsValid (negsuc n) v = ground arith

pub move_back_boundary-IsValid :
    {b : Buffer} (d : ℤ)
    → IsValid b
    → IsValid (move_back_boundary b d) × SameBlock b (move_back_boundary b d)
unfolding move_back_boundary
move_back_boundary-IsValid (pos n) v = ground arith
move_back_boundary-IsValid (negsuc n) v = ground arith

-- A move of the front boundary that fits keeps the end of the window where it is.
pub move_front_boundary_forward :
    {b : Buffer} (n : ℕ)
    → IsValid b
    → n ≤ b.size
    → let b' = move_front_boundary b (pos n) in (b'.start ≡ b.start + n) × (b'.size ≡ b.size - n)
unfolding move_front_boundary
move_front_boundary_forward n v h = ground arith

pub move_front_boundary_back :
    {b : Buffer} (n : ℕ)
    → IsValid b
    → b.internal + n + 1 ≤ b.start
    → let b' = move_front_boundary b (negsuc n) in
      (b'.start ≡ b.start - (n + 1)) × (b'.size ≡ b.size + (n + 1))
unfolding move_front_boundary
move_front_boundary_back n v h = ground arith

-- What `readBuffer` returns lies in the window, or is empty.
pub read_buffer_within :
    (m : Memory) {b : Buffer} (from : ℕ)
    → IsBytes m
    → IsValid b
    → from + 2 < 2 ^ 31
    → let view = read_buffer m b from in
      (view.length ≡ 0)
      ⊎ ((b.start ≤ view.address) × (view.address + view.length ≤ b.start + b.size))
unfolding read_buffer
read_buffer_within m {b} from bytes v h = ground (arith, load16-lt m (b.start + from) bytes)

pub read_buffer_from_front-IsValid :
    (m : Memory) {b : Buffer} → IsValid b → IsValid (read_buffer_from_front m b).1
unfolding read_buffer_from_front
read_buffer_from_front-IsValid m {b} v =
    ground (arith, move_front_boundary-IsValid (pos (2 + (read_buffer m b 0).length)) v)

pub write_buffer-IsValid :
    (m : Memory) {b : Buffer} (bytes : List ℕ) (len from : ℕ)
    → IsValid b
    → IsValid (write_buffer m b bytes len from).buffer
unfolding write_buffer
write_buffer-IsValid m {b} bytes len from v =
    ground (arith, resize-IsValid (u32 (from + len + 2)) v)
