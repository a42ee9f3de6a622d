-- ===== src/Transmission/RpcProtocol/Buffers.antt =====
-- The text of a JSON value in a buffer of the pool.
use zn_tunnel.Prelude.{
  ℕ, ◌+◌, ◌^◌, ◌≤◌, ◌<◌, ◌≡◌, refl, ap, ◌∙◌, List, some, arith, length, All, pos, u16, take, ◌/◌,
}
use zn_tunnel.Memory.{Memory, store16}
use zn_tunnel.Memory.Laws.{IsByte, IsBytes, store-IsBytes, store_list-IsBytes}
use zn_tunnel.Buffer.{
  Buffer, Written, new_buffer, prefix_space, move_front_boundary, resize, write_string,
  write_buffer, write_string_to_back, write_buffer_to_back, read_string, read_string_from_front,
  read_buffer_from_front,
}
use zn_tunnel.Buffer.Bounds.{IsValid, write_buffer-IsValid}
use zn_tunnel.Buffer.RoundTrip.{Fits, read_string-write_string}
use zn_tunnel.Pool.{Pool, alloc}
use zn_tunnel.Transmission.Json.{Json}
use zn_tunnel.Transmission.RpcProtocol.{write_json}

-- A block of the pool before a text is written to it.
abbrev pub empty_block : ℕ → Buffer
empty_block a = resize (move_front_boundary (new_buffer a 1600) (pos 10)) 0

empty_block_lem :
    (a : ℕ)
    → a + 1600 < 2 ^ 64
    → ((empty_block a).start ≡ a + 10)
      × ((empty_block a).size ≡ 0)
      × ((empty_block a).internal ≡ a)
      × ((empty_block a).internal_size ≡ 1600)
unfolding new_buffer move_front_boundary resize
empty_block_lem a mapped = ground arith

-- The text is of bytes, at most 1587 of them.
abbrev pub IsText : List ℕ → Type 0
IsText text = All IsByte text × (length text < 1588)

-- A buffer of the block at `a`, with room for what Rpc puts in front.
pub record IsMessage (a : ℕ) (buf : Buffer) : Type 0 where
  pub valid : IsValid buf
  pub block : buf.internal ≡ a
  pub room : 10 ≤ prefix_space buf

same_block :
    (m : Memory) (b : Buffer) (text : List ℕ)
    → let w = write_string_to_back m b text in
      (w.buffer.start ≡ b.start) × (w.buffer.internal ≡ b.internal)
unfolding write_string_to_back write_buffer_to_back write_buffer resize
same_block m b text = ground arith

empty_block-IsValid : (a : ℕ) → a + 1600 < 2 ^ 64 → IsValid (empty_block a)
empty_block-IsValid a mapped = ground (arith, empty_block_lem a mapped)

pub write_text-IsMessage :
    (m : Memory) (a : ℕ) (text : List ℕ)
    → a + 1600 < 2 ^ 64
    → IsMessage a (write_string_to_back m (empty_block a) text).buffer
unfolding write_string_to_back write_buffer_to_back prefix_space
write_text-IsMessage m a text mapped =
    let (start, size, internal, total) = empty_block_lem a mapped in
    let (same_start, same_internal) = same_block m (empty_block a) text in
    let at : (write_string_to_back m (empty_block a) text).buffer.start ≡ a + 10 =
      same_start ∙ start in
    let block : (write_string_to_back m (empty_block a) text).buffer.internal ≡ a =
      same_internal ∙ internal in
    record {
      valid =
          write_buffer-IsValid m text (u16 (length text)) (empty_block a).size
            (empty_block-IsValid a mapped);
      block = block;
      room = omega (arith, at, block);
    }

-- The first thing that is written to an empty window, and the first that is read.
write_string_first :
    (m : Memory) (b : Buffer) (text : List ℕ)
    → b.size ≡ 0
    → write_string_to_back m b text ≡ write_string m b text 0
unfolding write_string_to_back write_buffer_to_back write_string
write_string_first m b text h = ap (write_buffer m b text (u16 (length text))) h

pub read_string_first :
    (m : Memory) (b : Buffer) → (read_string_from_front m b).0 ≡ read_string m b 0
unfolding read_string_from_front read_buffer_from_front read_string
read_string_first m b = refl

pub write_text_reads :
    (m : Memory) (a : ℕ) (text : List ℕ)
    → a + 1600 < 2 ^ 64
    → IsText text
    → let w = write_string_to_back m (empty_block a) text in
      (read_string_from_front w.memory w.buffer).0 ≡ text
write_text_reads m a text mapped t =
    let (start, size, internal, total) = empty_block_lem a mapped in
    let fits : Fits (empty_block a) text 0 = record {
      bytes = t.0;
      short = omega (arith, t.1);
      low = omega (arith, t.1);
      room = omega (arith, t.1, start, internal, total);
    } in
    let w = write_string_to_back m (empty_block a) text in
    read_string_first w.memory w.buffer
    ∙ ap (λ (v : Written). read_string v.memory v.buffer 0)
        (write_string_first m (empty_block a) text size)
    ∙ read_string-write_string m text 0 (empty_block-IsValid a mapped) fits

pub write_text-IsBytes :
    (m : Memory) (b : Buffer) (text : List ℕ)
    → IsBytes m
    → IsBytes (write_string_to_back m b text).memory
unfolding write_string_to_back write_buffer_to_back write_buffer store16
write_text-IsBytes m b text h = ground (
  arith,
  h,
  store_list-IsBytes (store16 m (b.start + b.size) (u16 (length text))) (b.start + b.size + 2)
      (take (u16 (length text)) text)
      (store-IsBytes _ (b.start + b.size + 1) (u16 (length text))
        (store-IsBytes m (b.start + b.size) (u16 (length text) / 256) h)),
)

-- A value in a block that the pool gives: a buffer over it, and what it reads.
pub write_json-IsMessage :
    {J : Type 0} (json : Json J) (m : Memory) (pool rest : Pool) (chunk a : ℕ) (payload : J)
    (text : List ℕ)
    → alloc 1600 pool chunk ≡ some (new_buffer a 1600, rest)
    → a + 1600 < 2 ^ 64
    → json.dump payload ≡ some text
    → (written : Memory) × (buf : Buffer) × (write_json json m pool chunk payload
        ≡ some (written, buf, rest))
      × IsMessage a buf
      × (IsText text → (read_string_from_front written buf).0 ≡ text)
unfolding write_json
write_json-IsMessage json m pool rest chunk a payload text given mapped dumped =
    let w = write_string_to_back m (empty_block a) text in
    (
      w.memory,
      w.buffer,
      rw (given, dumped) refl,
      write_text-IsMessage m a text mapped,
      write_text_reads m a text mapped,
    )
