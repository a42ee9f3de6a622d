-- ===== src/Pool/Ownership.antt =====
-- Who holds which block: the pool's free blocks and those that were handed out.
use mathlib.Core.List.{append_assoc}
use mathlib.Core.Option.{some-injective}
use zn_tunnel.Prelude.{
  ℕ, ◌+◌, ◌*◌, ◌≤◌, ◌<◌, ◌^◌, ◌≡◌, refl, sym, ◌∙◌, ap, subst, List, [], ◌∷◌, ◌++◌, Option, some,
  All, All-mono, arith, length, length-append,
}
use zn_tunnel.Buffer.{Buffer, new_buffer}
use zn_tunnel.Pool.{Pool, alloc, free, consumed_count, new_pool, alloc_chunk, refill, pop_available}
use zn_tunnel.Pool.Blocks.{
  Clear, Apart, InChunks, Apart-append_right, Apart-push_in, Apart-pull_out, All-push_in,
  All-pull_out, InChunks-append_left, InChunks-last, InChunks-Clear, push_blocks-Apart,
  push_blocks-All, length-push_blocks,
}

-- `lent` are the blocks that clients hold.
pub record IsPool (size : ℕ) (p : Pool) (lent : List ℕ) : Type 0 where
  pub apart : Apart size (p.available ++ lent)
  pub inside :
      All (InChunks size (p.buffers_per_chunk * size) p.memory_chunks) (p.available ++ lent)
  pub counted : length p.available + length lent ≡ length p.memory_chunks * p.buffers_per_chunk
  pub small : p.buffers_per_chunk * size < 2 ^ 32
  pub some_blocks : 0 < p.buffers_per_chunk

-- `new` returns memory that overlaps no chunk that is still in use.
abbrev pub Fresh : ℕ → Pool → ℕ → Type 0
Fresh size p chunk = All (Clear (p.buffers_per_chunk * size) chunk) p.memory_chunks

module _ (size : ℕ) where
  -- A new chunk keeps the invariant.
  alloc_chunk-IsPool :
      (p : Pool) (lent : List ℕ) (chunk : ℕ)
      → IsPool size p lent
      → Fresh size p chunk
      → IsPool size (alloc_chunk size p chunk) lent
  unfolding alloc_chunk
  alloc_chunk-IsPool p lent chunk v fresh =
      let per : ℕ = p.buffers_per_chunk in
      record {
        apart =
            push_blocks-Apart size chunk lent per 0 per p.available (omega arith) v.small
              (All-mono _ _ (p.available ++ lent)
                (λ b h.
                  ground (arith, InChunks-Clear size (per * size) chunk p.memory_chunks b fresh h))
                v.inside)
              v.apart;
        inside =
            push_blocks-All size chunk lent _ per 0 per p.available (omega arith) v.small
              (λ j h.
                InChunks-last size (per * size) p.memory_chunks chunk (chunk + j * size)
                  (omega arith) (block_end chunk j per h))
              (All-mono _ _ (p.available ++ lent)
                (InChunks-append_left size (per * size) p.memory_chunks (chunk ∷ [])) v.inside);
        counted = omega (
          arith,
          length-push_blocks size per 0 chunk p.available,
          ap (λ (t : ℕ). t * per) (length-append p.memory_chunks (chunk ∷ [])),
          v.counted,
        );
        small = v.small;
        some_blocks = v.some_blocks;
      }
    where
      block_end : (chunk j per : ℕ) → j < per → chunk + j * size + size ≤ chunk + per * size
      block_end chunk j per h = let below : (j + 1) * size ≤ per * size = grind arith in omega arith

  -- Handing the top block out keeps the invariant.
  pop_available-IsPool :
      (p : Pool) (block : ℕ) (rest lent : List ℕ)
      → IsPool size (record p { available = block ∷ rest }) lent
      → IsPool size (record p { available = rest }) (block ∷ lent)
  pop_available-IsPool p block rest lent v = record {
    apart = Apart-push_in size rest block lent v.apart.0 v.apart.1;
    inside = All-push_in _ rest block lent v.inside.0 v.inside.1;
    counted = omega (arith, v.counted);
    small = v.small;
    some_blocks = v.some_blocks;
  }

  -- A result that hands out a whole block, and accounts for it.
  pub record HandsOut (lent : List ℕ) (result : Option (Buffer × Pool)) : Type 0 where
    pub buffer : Buffer
    pub next : Pool
    pub returns : result ≡ some (buffer, next)
    pub whole : buffer ≡ new_buffer buffer.internal size
    pub valid : IsPool size next (buffer.internal ∷ lent)

  pop_available-HandsOut :
      (p : Pool) (lent stack : List ℕ)
      → p.available ≡ stack
      → 0 < length stack
      → IsPool size p lent
      → HandsOut lent (pop_available size p stack)
  unfolding pop_available new_buffer
  pop_available-HandsOut p lent [] e h v = absurd (omega arith)
  pop_available-HandsOut p lent (block ∷ rest) e h v = record {
    buffer = new_buffer block size;
    next = record p { available = rest };
    returns = refl;
    whole = refl;
    valid =
        pop_available-IsPool p block rest lent
          (subst (λ xs. IsPool size (record p { available = xs }) lent) e v);
  }

  refill-IsPool :
      (p : Pool) (lent stack : List ℕ) (chunk : ℕ)
      → (stack ≡ [] → Fresh size p chunk)
      → p.available ≡ stack
      → IsPool size p lent
      → IsPool size (refill size p stack chunk) lent
        × (0 < length (refill size p stack chunk).available)
  unfolding refill
  refill-IsPool p lent [] chunk fresh e v = (
    alloc_chunk-IsPool p lent chunk v (fresh refl),
    omega (arith, v.some_blocks, length-push_blocks size p.buffers_per_chunk 0 chunk p.available),
  )
  refill-IsPool p lent (block ∷ rest) chunk fresh e v = (v, rw e (omega arith))

  -- `alloc` of a sound pool hands out a whole block, which is one that no client holds and overlaps none
  -- that a client holds, if memory for a new chunk is fresh.
  pub alloc-HandsOut :
      (p : Pool) (lent : List ℕ) (chunk : ℕ)
      → IsPool size p lent
      → (p.available ≡ [] → Fresh size p chunk)
      → HandsOut lent (alloc size p chunk)
  unfolding alloc
  alloc-HandsOut p lent chunk v fresh =
      let ready = refill-IsPool p lent p.available chunk fresh refl v in
      pop_available-HandsOut (refill size p p.available chunk) lent _ refl ready.1 ready.0

  -- A block that a client gives back is the pool's again.
  pub free-IsPool :
      (p : Pool) (before after : List ℕ) (buffer : Buffer)
      → IsPool size p (before ++ buffer.internal ∷ after)
      → IsPool size (free p buffer) (before ++ after)
  unfolding free
  free-IsPool p before after buffer v =
      let regroup = append_assoc p.available before in
      let block : ℕ = buffer.internal in
      record {
        apart =
            rw (← append_assoc p.available before after)
              (Apart-pull_out size (p.available ++ before) block after (rw regroup v.apart));
        inside =
            rw (← append_assoc p.available before after)
              (All-pull_out _ (p.available ++ before) block after (rw regroup v.inside));
        counted = ground (arith, length-append before (block ∷ after), length-append before after);
        small = v.small;
        some_blocks = v.some_blocks;
      }

  -- `consumedCount` is the number of blocks that clients hold.
  pub consumed_count-eq :
      (p : Pool) (lent : List ℕ)
      → IsPool size p lent
      → length p.memory_chunks * p.buffers_per_chunk < 2 ^ 32
      → consumed_count p ≡ length lent
  unfolding consumed_count
  consumed_count-eq p lent v h = omega (arith, v.counted)

  pub new_pool-IsPool : (per : ℕ) → 0 < per → per * size < 2 ^ 32 → IsPool size (new_pool per) []
  unfolding new_pool
  new_pool-IsPool per h k = record {
    apart = tt;
    inside = tt;
    counted = omega arith;
    small = k;
    some_blocks = h;
  }

  -- A client's calls: what it takes, and what it gives back of what it holds.
  pub data Step : Pool → List ℕ → Pool → List ℕ → Type 0 where
    takes :
        (p : Pool) (lent : List ℕ) (chunk : ℕ) (buffer : Buffer) (q : Pool)
        → (p.available ≡ [] → Fresh size p chunk)
        → alloc size p chunk ≡ some (buffer, q)
        → Step p lent q (buffer.internal ∷ lent)
    gives :
        (p : Pool) (before after : List ℕ) (buffer : Buffer) (lent : List ℕ)
        → lent ≡ before ++ buffer.internal ∷ after
        → Step p lent (free p buffer) (before ++ after)

  pub data Reach (per : ℕ) : Pool → List ℕ → Type 0 where
    begin : Reach per (new_pool per) []
    next :
        {p : Pool} {lent : List ℕ} {q : Pool} {lent' : List ℕ}
        → Reach per p lent
        → Step p lent q lent'
        → Reach per q lent'

  pub Step-IsPool :
      {p : Pool} {lent : List ℕ} {q : Pool} {lent' : List ℕ}
      → Step p lent q lent'
      → IsPool size p lent
      → IsPool size q lent'
  Step-IsPool (takes p lent chunk buffer q fresh e) v =
      let out = alloc-HandsOut p lent chunk v fresh in
      subst (λ (r : Buffer × Pool). IsPool size r.1 (r.0.internal ∷ lent))
        (some-injective _ _ (sym out.returns ∙ e)) out.valid
  Step-IsPool (gives p before after buffer lent e) v = free-IsPool p before after buffer (rw e at v)

  pub Reach-IsPool :
      (per : ℕ) {p : Pool} {lent : List ℕ}
      → 0 < per
      → per * size < 2 ^ 32
      → Reach per p lent
      → IsPool size p lent
  Reach-IsPool per h k begin = new_pool-IsPool per h k
  Reach-IsPool per h k (next r st) = Step-IsPool st (Reach-IsPool per h k r)

  -- However clients take and give back blocks, no two blocks that they hold overlap, and none
  -- overlaps one that is free.
  pub Reach-Apart :
      (per : ℕ) {p : Pool} {lent : List ℕ}
      → 0 < per
      → per * size < 2 ^ 32
      → Reach per p lent
      → Apart size lent × Apart size (p.available ++ lent)
  Reach-Apart per {p} {lent} h k r =
      let v = Reach-IsPool per h k r in (Apart-append_right size p.available lent v.apart, v.apart)

  -- The block given back last is the one handed out next, whole again.
  pub alloc-free :
      (p : Pool) (buffer : Buffer) (chunk : ℕ)
      → alloc size (free p buffer) chunk ≡ some (new_buffer buffer.internal size, p)
  unfolding alloc free
  alloc-free p buffer chunk = refl
