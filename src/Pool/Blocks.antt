-- ===== src/Pool/Blocks.antt =====
-- Blocks of memory that do not overlap, and blocks that lie in chunks.
use native.Mathlib.Nat.{mod-eq_of_lt}
use zn_tunnel.Prelude.{
  ℕ, zero, suc, ◌+◌, ◌*◌, ◌≤◌, ◌<◌, ◌^◌, ◌≡◌, ◌⊎◌, inl, inr, List, [], ◌∷◌, ◌++◌, All, All-mono,
  arith, length, u32,
}
use zn_tunnel.Pool.{push_blocks}

-- Blocks of `size` bytes at `a` and `b` have no byte in common.
abbrev pub Clear : ℕ → ℕ → ℕ → Type 0
Clear size a b = (a + size ≤ b) ⊎ (b + size ≤ a)

-- No two of the blocks overlap.
abbrev pub Apart : ℕ → List ℕ → Type 0
Apart size [] = Unit
Apart size (a ∷ as') = All (Clear size a) as' × Apart size as'

-- The block at `a` lies in one of the chunks of `span` bytes.
abbrev pub InChunks : ℕ → ℕ → List ℕ → ℕ → Type 0
InChunks size span [] a = ⊥
InChunks size span (c ∷ cs) a = ((c ≤ a) × (a + size ≤ c + span)) ⊎ InChunks size span cs a

module _ {ℓ} (P : ℕ → Type ℓ) where
  pub All-push_in :
      (xs : List ℕ) (b : ℕ) (ys : List ℕ) → P b → All P (xs ++ ys) → All P (xs ++ b ∷ ys)
  All-push_in [] b ys h p = (h, p)
  All-push_in (x ∷ xs) b ys h p = (p.0, All-push_in xs b ys h p.1)

  pub All-pull_out :
      (xs : List ℕ) (b : ℕ) (ys : List ℕ) → All P (xs ++ b ∷ ys) → P b × All P (xs ++ ys)
  All-pull_out [] b ys p = p
  All-pull_out (x ∷ xs) b ys p = let r = All-pull_out xs b ys p.1 in (r.0, (p.0, r.1))

module _ (size : ℕ) where
  pub Clear-sym : (a b : ℕ) → Clear size a b → Clear size b a
  Clear-sym a b (inl h) = inr h
  Clear-sym a b (inr h) = inl h

  -- The order of the blocks does not matter.
  pub Apart-push_in :
      (xs : List ℕ) (b : ℕ) (ys : List ℕ)
      → All (Clear size b) (xs ++ ys)
      → Apart size (xs ++ ys)
      → Apart size (xs ++ b ∷ ys)
  Apart-push_in [] b ys c p = (c, p)
  Apart-push_in (x ∷ xs) b ys c p =
      (All-push_in (Clear size x) xs b ys (Clear-sym b x c.0) p.0, Apart-push_in xs b ys c.1 p.1)

  pub Apart-pull_out :
      (xs : List ℕ) (b : ℕ) (ys : List ℕ)
      → Apart size (xs ++ b ∷ ys)
      → All (Clear size b) (xs ++ ys) × Apart size (xs ++ ys)
  Apart-pull_out [] b ys p = p
  Apart-pull_out (x ∷ xs) b ys p =
      let head = All-pull_out (Clear size x) xs b ys p.0 in
      let rest = Apart-pull_out xs b ys p.1 in ((Clear-sym x b head.0, rest.0), (head.1, rest.1))

  pub Apart-append_right : (xs ys : List ℕ) → Apart size (xs ++ ys) → Apart size ys
  Apart-append_right [] ys p = p
  Apart-append_right (x ∷ xs) ys p = Apart-append_right xs ys p.1

module _ (size span : ℕ) where
  pub InChunks-append_left :
      (cs ds : List ℕ) (a : ℕ) → InChunks size span cs a → InChunks size span (cs ++ ds) a
  InChunks-append_left [] ds a h = absurd h
  InChunks-append_left (c ∷ cs) ds a (inl h) = inl h
  InChunks-append_left (c ∷ cs) ds a (inr h) = inr (InChunks-append_left cs ds a h)

  pub InChunks-last :
      (cs : List ℕ) (c a : ℕ) → c ≤ a → a + size ≤ c + span → InChunks size span (cs ++ c ∷ []) a
  InChunks-last [] c a h k = inl (h, k)
  InChunks-last (d ∷ cs) c a h k = inr (InChunks-last cs c a h k)

  -- A block in old chunks lies on one side of a chunk that overlaps none of them.
  pub InChunks-Clear :
      (chunk : ℕ) (cs : List ℕ) (a : ℕ)
      → All (Clear span chunk) cs
      → InChunks size span cs a
      → (a + size ≤ chunk) ⊎ (chunk + span ≤ a)
  InChunks-Clear chunk [] a f h = absurd h
  InChunks-Clear chunk (c ∷ cs) a f (inl h) = ground arith
  InChunks-Clear chunk (c ∷ cs) a f (inr h) = InChunks-Clear chunk cs a f.1 h

-- The offset of block `i` does not wrap.
offset_small : (size i per : ℕ) → i < per → per * size < 2 ^ 32 → u32 (i * size) ≡ i * size
offset_small size i per h k =
    let below : (i + 1) * size ≤ per * size = grind arith in mod-eq_of_lt (omega arith)

-- What the loop of `_allocChunk` pushes, on a stack `xs` beside the blocks `lent`.
module _ (size chunk : ℕ) (lent : List ℕ) where
  -- A block that is out of the way of those pushed from round `i` to round `per`.
  abbrev pub Ahead : ℕ → ℕ → ℕ → Type 0
  Ahead per i b = (b + size ≤ chunk + i * size) ⊎ (chunk + per * size ≤ b)

  Ahead-Clear : (i per b : ℕ) → i < per → Ahead per i b → Clear size (chunk + i * size) b
  Ahead-Clear i per b h (inl k) = inr k
  Ahead-Clear i per b h (inr k) =
      let below : (i + 1) * size ≤ per * size = grind arith in inl (omega arith)

  Ahead-suc : (i per b : ℕ) → Ahead per i b → Ahead per (i + 1) b
  Ahead-suc i per b (inl k) = inl (omega arith)
  Ahead-suc i per b (inr k) = inr k

  pub push_blocks-Apart :
      (n i per : ℕ) (xs : List ℕ)
      → i + n ≡ per
      → per * size < 2 ^ 32
      → All (Ahead per i) (xs ++ lent)
      → Apart size (xs ++ lent)
      → Apart size (push_blocks size n i chunk xs ++ lent)
  unfolding push_blocks
  push_blocks-Apart zero i per xs e small ahead apart = apart
  push_blocks-Apart (suc n) i per xs e small ahead apart =
      rw (offset_small size i per (omega arith) small) (
        push_blocks-Apart n (i + 1) per ((chunk + i * size) ∷ xs) (omega arith) small
          (inl (omega arith), All-mono _ _ (xs ++ lent) (Ahead-suc i per) ahead)
          (All-mono _ _ (xs ++ lent) (λ b. Ahead-Clear i per b (omega arith)) ahead, apart))

  -- A property of the blocks pushed and of those there before holds of all.
  pub push_blocks-All {ℓ} :
      (P : ℕ → Type ℓ) (n i per : ℕ) (xs : List ℕ)
      → i + n ≡ per
      → per * size < 2 ^ 32
      → ((j : ℕ) → j < per → P (chunk + j * size))
      → All P (xs ++ lent)
      → All P (push_blocks size n i chunk xs ++ lent)
  unfolding push_blocks
  push_blocks-All P zero i per xs e small fresh h = h
  push_blocks-All P (suc n) i per xs e small fresh h =
      rw (offset_small size i per (omega arith) small) (
        push_blocks-All P n (i + 1) per ((chunk + i * size) ∷ xs) (omega arith) small fresh
          (fresh i (omega arith), h))

pub length-push_blocks :
    (size n i chunk : ℕ) (xs : List ℕ) → length (push_blocks size n i chunk xs) ≡ n + length xs
unfolding push_blocks
length-push_blocks size zero i chunk xs = omega arith
length-push_blocks size (suc n) i chunk xs =
    omega (arith, length-push_blocks size n (i + 1) chunk ((chunk + u32 (i * size)) ∷ xs))
