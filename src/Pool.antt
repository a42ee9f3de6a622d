-- ===== src/Pool.antt =====
-- `class BufferPool` of libtun/include/libtun/BufferPool.h. The lock of each method makes it one
-- step. The address that `new uint8_t[...]` returns is an argument of the call that needs it, and
-- `none` is `top()` of an empty stack, which C++ leaves undefined.
pub mod Blocks
pub mod Ownership
use zn_tunnel.Prelude.{
  ℕ, zero, suc, ◌+◌, ◌*◌, List, [], ◌∷◌, ◌++◌, Option, none, some, length, u32, sub32,
}
use zn_tunnel.Buffer.{Buffer, new_buffer}

-- `_available` is a stack, its top first; blocks and chunks are addresses.
pub record Pool : Type 0 where
  pub buffers_per_chunk : ℕ
  pub memory_chunks : List ℕ
  pub available : List ℕ

unfoldable pub new_pool : ℕ → Pool
new_pool buffers_per_chunk = record {
  buffers_per_chunk = buffers_per_chunk;
  memory_chunks = [];
  available = [];
}

-- The template's `bufferSize`.
module _ (buffer_size : ℕ) where
  -- The loop of `_allocChunk` at `i`, with `n` rounds left.
  unfoldable pub push_blocks : ℕ → ℕ → ℕ → List ℕ → List ℕ
  push_blocks zero i chunk stack = stack
  push_blocks (suc n) i chunk stack =
      push_blocks n (i + 1) chunk ((chunk + u32 (i * buffer_size)) ∷ stack)

  unfoldable pub alloc_chunk : Pool → ℕ → Pool
  alloc_chunk p chunk = record p {
    memory_chunks = p.memory_chunks ++ chunk ∷ [];
    available = push_blocks p.buffers_per_chunk 0 chunk p.available;
  }

  unfoldable pub pop_available : Pool → List ℕ → Option (Buffer × Pool)
  pop_available p [] = none
  pop_available p (block ∷ rest) =
      some (new_buffer block buffer_size, record p { available = rest })

  unfoldable pub refill : Pool → List ℕ → ℕ → Pool
  unfolding alloc_chunk
  refill p [] chunk = alloc_chunk p chunk
  refill p (block ∷ rest) chunk = p

  unfoldable pub alloc : Pool → ℕ → Option (Buffer × Pool)
  unfolding refill pop_available
  alloc p chunk = let q = refill p p.available chunk in pop_available q q.available

unfoldable pub free : Pool → Buffer → Pool
free p buffer = record p { available = buffer.internal ∷ p.available }

unfoldable pub available_count : Pool → ℕ
available_count p = u32 (length p.available)

unfoldable pub all_count : Pool → ℕ
all_count p = u32 (length p.memory_chunks * p.buffers_per_chunk)

unfoldable pub consumed_count : Pool → ℕ
unfolding available_count all_count
consumed_count p = sub32 (all_count p) (available_count p)
