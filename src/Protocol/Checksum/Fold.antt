-- ===== src/Protocol/Checksum/Fold.antt =====
-- The carry loop ends, and computes the ones' complement sum: the remainder by 2 ^ 16 - 1.
use zn_tunnel.Prelude.{
  ℕ, zero, suc, ◌+◌, ◌-◌, ◌/◌, ◌%◌, ◌^◌, ◌≤◌, ◌<◌, ◌≡◌, ◌∙◌, ap, some, arith, ◌==◌, if◌then◌else◌,
}
use native.Mathlib.Decide.{dec_lt}
use zn_tunnel.Protocol.Checksum.{fold_carries, complement}

-- The representative, from 1 to 2 ^ 16 - 1, of the remainder; only 0 goes to 0.
unfoldable pub folded : ℕ → ℕ
folded sum = if sum == 0 then 0 else (sum - 1) % 65535 + 1

fold_step :
    (fuel sum : ℕ)
    → 2 ^ 16 ≤ sum
    → fold_carries (suc fuel) sum ≡ fold_carries fuel (sum % 65536 + sum / 65536)
unfolding fold_carries
fold_step fuel sum h = ground arith

fold_done : (fuel sum : ℕ) → sum < 2 ^ 16 → fold_carries (suc fuel) sum ≡ some (folded sum)
unfolding fold_carries folded
fold_done fuel sum h = ground arith

folded_step : (sum : ℕ) → 2 ^ 16 ≤ sum → folded (sum % 65536 + sum / 65536) ≡ folded sum
unfolding folded
folded_step sum h = ground arith

-- Three rounds of fuel are enough for the carries of any 32-bit sum, and more change nothing.
pub fold_carries-folded :
    (fuel sum : ℕ) → sum < 2 ^ 32 → 3 ≤ fuel → fold_carries fuel sum ≡ some (folded sum)
fold_carries-folded (suc (suc (suc fuel))) sum h k = elim (dec_lt sum 65536) [
  | yes p ↦ fold_done _ sum p
  | no p ↦
      fold_step _ sum (omega arith)
      ∙ second (sum % 65536 + sum / 65536) (omega arith)
      ∙ ap some (folded_step sum (omega arith))
]
  where
    second : (s : ℕ) → s ≤ 131070 → fold_carries (suc (suc fuel)) s ≡ some (folded s)
    second s b = elim (dec_lt s 65536) [
      | yes p ↦ fold_done _ s p
      | no p ↦
          fold_step _ s (omega arith)
          ∙ fold_done _ (s % 65536 + s / 65536) (omega arith)
          ∙ ap some (folded_step s (omega arith))
    ]
fold_carries-folded (suc (suc zero)) sum h k = absurd (omega arith)
fold_carries-folded (suc zero) sum h k = absurd (omega arith)
fold_carries-folded zero sum h k = absurd (omega arith)

pub folded-lt : (sum : ℕ) → folded sum < 2 ^ 16
unfolding folded
folded-lt sum = ground arith

-- A sum and the complement of its fold make up all ones: a receiver that adds the checksum in
-- finds 2 ^ 16 - 1.
pub folded-complement : (sum : ℕ) → folded (sum + complement (folded sum)) ≡ 65535
unfolding folded complement
folded-complement sum = ground arith

pub complement-lt : (sum : ℕ) → complement sum < 2 ^ 16
unfolding complement
complement-lt sum = omega arith
