-- ===== src/Prelude/Word.antt =====
-- Casts to the fixed widths, and arithmetic that wraps.
use Prim.Native.Nat.{ℕ, ◌+◌, ◌-◌, ◌/◌, ◌%◌, ◌^◌}
use zn_tunnel.Prelude.Tests.{ltb, if◌then◌else◌}
use zn_tunnel.Prelude.Int.{ℤ, pos, negsuc, pos_part, neg_part}

abbrev pub u8 : ℕ → ℕ
u8 n = n % 2 ^ 8

abbrev pub u16 : ℕ → ℕ
u16 n = n % 2 ^ 16

abbrev pub u32 : ℕ → ℕ
u32 n = n % 2 ^ 32

abbrev pub u64 : ℕ → ℕ
u64 n = n % 2 ^ 64

-- uint32_t a - b, for b < 2 ^ 32.
abbrev pub sub32 : ℕ → ℕ → ℕ
sub32 a b = (a + 2 ^ 32 - b) % 2 ^ 32

-- The number that an int32_t of this bit pattern stands for.
abbrev pub signed32 : ℕ → ℤ
signed32 w = if ltb w (2 ^ 31) then pos w else negsuc (2 ^ 32 - w - 1)

-- The int8_t that a bit pattern stands for.
abbrev pub signed8 : ℕ → ℤ
signed8 w = if ltb w (2 ^ 7) then pos w else negsuc (2 ^ 8 - w - 1)

-- uint32_t a + d and a - d, for an int d that is converted to uint32_t.
abbrev pub add32_ℤ : ℕ → ℤ → ℕ
add32_ℤ a d = (a + pos_part d + 2 ^ 32 - neg_part d) % 2 ^ 32

abbrev pub sub32_ℤ : ℕ → ℤ → ℕ
sub32_ℤ a d = (a + neg_part d + 2 ^ 32 - pos_part d) % 2 ^ 32

-- A 64-bit address moved by d bytes.
abbrev pub move_address : ℕ → ℤ → ℕ
move_address a d = (a + pos_part d + 2 ^ 64 - neg_part d) % 2 ^ 64

-- What a mask of the lowest `width` bits leaves of a number, and what a right shift drops it to.
abbrev pub low_bits : ℕ → ℕ → ℕ
low_bits number width = number % 2 ^ width

abbrev pub shr : ℕ → ℕ → ℕ
shr number width = number / 2 ^ width
