-- ===== src/Tests/Pools.antt =====
-- BufferPool.h: a pool of blocks of 1600 bytes, two to a chunk.
use zn_tunnel.Prelude.{◌≡◌, refl, [], ◌∷◌, some, arith}
use zn_tunnel.Buffer.{new_buffer}
use zn_tunnel.Pool.{Pool, new_pool, push_blocks, alloc, consumed_count, available_count, all_count}
use zn_tunnel.Pool.Blocks.{Apart}
use zn_tunnel.Pool.Ownership.{IsPool, consumed_count-eq, takes, Reach, begin, next, Reach-Apart}

-- After one allocation, from a chunk at 65536.
abbrev pub one_lent : Pool
one_lent = record { buffers_per_chunk = 2; memory_chunks = 65536 ∷ []; available = 65536 ∷ [] }

first_alloc : alloc 1600 (new_pool 2) 65536 ≡ some (new_buffer 67136 1600, one_lent)
unfolding alloc new_pool push_blocks
first_alloc = refl

counts : (all_count one_lent ≡ 2) × (available_count one_lent ≡ 1) × (consumed_count one_lent ≡ 1)
unfolding consumed_count
counts = (refl, refl, refl)

taken_once : Reach 1600 2 one_lent (67136 ∷ [])
unfolding new_buffer new_pool
taken_once =
    next begin (takes (new_pool 2) [] 65536 (new_buffer 67136 1600) one_lent (λ e. tt) first_alloc)

Reach-Apart_example : Apart 1600 (67136 ∷ []) × Apart 1600 (65536 ∷ 67136 ∷ [])
Reach-Apart_example = Reach-Apart 1600 2 (omega arith) (omega arith) taken_once

pub one_lent-IsPool : IsPool 1600 one_lent (67136 ∷ [])
one_lent-IsPool = record {
  apart = omega arith;
  inside = omega arith;
  counted = omega arith;
  small = omega arith;
  some_blocks = omega arith;
}

consumed_count-eq_example : consumed_count one_lent ≡ 1
consumed_count-eq_example =
    consumed_count-eq 1600 one_lent (67136 ∷ []) one_lent-IsPool (omega arith)
