-- ===== src/Buffer.antt =====
-- `class Buffer` of libtun/include/libtun/BufferPool.h: a window over a block of memory.
-- A method that changes the window returns the new one beside its result; a method that writes
-- takes and returns the memory. Lengths wrap at 32 bits, as `uint32_t` does.
pub mod Bounds
pub mod RoundTrip
pub mod Copy
use zn_tunnel.Prelude.{
  ℕ, ◌+◌, ◌-◌, ◌^◌, ◌%◌, List, Bool, true, false, ◌&&◌, ltb, leb, if◌then◌else◌, length, ℤ, pos,
  neg_ℤ, leb_ℤ, u16, u32, sub32, signed32, add32_ℤ, sub32_ℤ, move_address, take,
}
use zn_tunnel.Memory.{Memory, load16, load_list, store16, store_list}

-- `_internal` and `_data` are addresses; `_data` is called `start`.
pub record Buffer : Type 0 where
  pub internal : ℕ
  pub internal_size : ℕ
  pub start : ℕ
  pub size : ℕ

-- `Buffer(data, len)`.
unfoldable pub new_buffer : ℕ → ℕ → Buffer
new_buffer address len = record {
  internal = address;
  internal_size = len;
  start = address;
  size = len;
}

-- `mutable_buffer` and `const_buffer`: a pointer and a length.
pub record View : Type 0 where
  pub address : ℕ
  pub length : ℕ

abbrev pub empty_view : View
empty_view = record { address = 0; length = 0 }

unfoldable pub to_view : Buffer → View
to_view b = record { address = b.start; length = b.size }

-- The pointer difference, converted to `uint32_t`.
unfoldable pub prefix_space : Buffer → ℕ
prefix_space b = (b.start + 2 ^ 64 - b.internal) % 2 ^ 32

unfoldable pub suffix_space : Buffer → ℕ
unfolding prefix_space
suffix_space b = sub32 (sub32 b.internal_size (prefix_space b)) b.size

-- `size(len)`, which ignores a length that does not fit.
unfoldable pub resize : Buffer → ℕ → Buffer
unfolding prefix_space
resize b len =
    if leb len (sub32 b.internal_size (prefix_space b)) then record b { size = len } else b

unfoldable pub shift : Buffer → ℤ → Buffer
unfolding prefix_space suffix_space
shift b distance =
    if leb_ℤ distance (signed32 (suffix_space b))
      && leb_ℤ (neg_ℤ distance) (signed32 (prefix_space b))
    then record b { start = move_address b.start distance }
    else b

unfoldable pub move_front_boundary : Buffer → ℤ → Buffer
unfolding prefix_space
move_front_boundary b distance =
    if leb_ℤ (neg_ℤ distance) (signed32 (prefix_space b)) && leb_ℤ distance (signed32 b.size)
    then record b { start = move_address b.start distance; size = sub32_ℤ b.size distance }
    else b

unfoldable pub move_back_boundary : Buffer → ℤ → Buffer
unfolding suffix_space
move_back_boundary b distance =
    if leb_ℤ distance (signed32 (suffix_space b)) && leb_ℤ (neg_ℤ distance) (signed32 b.size)
    then record b { size = add32_ℤ b.size distance }
    else b

-- The content after a big-endian length of two bytes; an empty view if it does not fit.
unfoldable pub read_buffer : Memory → Buffer → ℕ → View
read_buffer m b from =
    let len = load16 m (b.start + from) in
    if ltb b.size (u32 (from + 2))
    then empty_view
    else if ltb b.size (u32 (from + 2 + len))
    then empty_view
    else record { address = b.start + from + 2; length = len }

unfoldable pub read_buffer_from_front : Memory → Buffer → View × Buffer
unfolding read_buffer move_front_boundary
read_buffer_from_front m b =
    let view = read_buffer m b 0 in
    (view, if ltb 0 view.length then move_front_boundary b (pos (2 + view.length)) else b)

-- A string is the list of its bytes.
unfoldable pub read_string : Memory → Buffer → ℕ → List ℕ
unfolding read_buffer
read_string m b from = let view = read_buffer m b from in load_list m view.address view.length

unfoldable pub read_string_from_front : Memory → Buffer → List ℕ × Buffer
unfolding read_buffer_from_front
read_string_from_front m b =
    let (view, b') = read_buffer_from_front m b in (load_list m view.address view.length, b')

pub record Written : Type 0 where
  pub memory : Memory
  pub buffer : Buffer
  pub accepted : Bool

-- The list holds what `buf` points at, of which the first `len` bytes are copied.
unfoldable pub write_buffer : Memory → Buffer → List ℕ → ℕ → ℕ → Written
unfolding suffix_space resize
write_buffer m b bytes len from =
    if leb (u32 (b.size + suffix_space b)) (u32 (from + len + 2))
    then record { memory = m; buffer = b; accepted = false }
    else record {
      memory = store_list (store16 m (b.start + from) len) (b.start + from + 2) (take len bytes);
      buffer = if ltb b.size (u32 (from + len + 2)) then resize b (u32 (from + len + 2)) else b;
      accepted = true;
    }

unfoldable pub write_buffer_to_back : Memory → Buffer → List ℕ → ℕ → Written
unfolding write_buffer
write_buffer_to_back m b bytes len = write_buffer m b bytes len b.size

-- The length of the string is cut to `uint16_t` on the way in.
unfoldable pub write_string : Memory → Buffer → List ℕ → ℕ → Written
unfolding write_buffer
write_string m b str from = write_buffer m b str (u16 (length str)) from

unfoldable pub write_string_to_back : Memory → Buffer → List ℕ → Written
unfolding write_buffer_to_back
write_string_to_back m b str = write_buffer_to_back m b str (u16 (length str))
