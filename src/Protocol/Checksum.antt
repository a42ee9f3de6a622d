-- ===== src/Protocol/Checksum.antt =====
-- The loops that `Ip4::calculateChecksum` and `Tcp::calculateChecksum` share, word for word.
-- The while loop runs on fuel; `Checksum/Fold.antt` shows that 3 rounds are enough.
pub mod Fold
pub mod Sum
use zn_tunnel.Prelude.{
  ℕ, zero, suc, ◌+◌, ◌-◌, ◌*◌, ◌^◌, Option, none, some, ◌==◌, if◌then◌else◌, u16, u32, shr,
  low_bits,
}
use zn_tunnel.Memory.{Memory}

-- `for (int i = 0; i < len; i += 2) if (i != skip) sum += (data[i] << 8) + data[i + 1];`
-- at `i`, with `n` rounds left.
unfoldable pub add_words : Memory → ℕ → ℕ → ℕ → ℕ → ℕ → ℕ
add_words m data_at skip zero i sum = sum
add_words m data_at skip (suc n) i sum =
    add_words m data_at skip n (i + 2)
      (if i == skip then sum else u32 (sum + (m (data_at + i) * 2 ^ 8 + m (data_at + i + 1))))

-- The rounds of a loop that counts to `len` in twos.
unfoldable pub rounds : ℕ → ℕ
rounds len = shr (len + 1) 1

-- `while (sum >> 16) sum = (sum & 0xffff) + (sum >> 16);`; `none` is fuel that ran out.
unfoldable pub fold_carries : ℕ → ℕ → Option ℕ
fold_carries zero sum = none
fold_carries (suc fuel) sum =
    let rest = fold_carries fuel (low_bits sum 16 + shr sum 16) in
    if shr sum 16 == 0 then some sum else rest

-- `return ~sum;` as `uint16_t`.
unfoldable pub complement : ℕ → ℕ
complement sum = u16 (2 ^ 32 - 1 - sum)
