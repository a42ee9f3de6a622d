-- ===== src/RawSocket/Frames.antt =====
-- What `consume` hands on of a buffer of whole frames.
use zn_tunnel.Prelude.{ℕ, ◌+◌, ◌-◌, ◌^◌, ◌≤◌, ◌<◌, ◌≡◌, List, [], ◌∷◌, Option, some, ◌>>=◌, ◌⊎◌}
use zn_tunnel.Memory.{Memory}
use zn_tunnel.RawSocket.Consume.{BpfHeader, OnPacket}

-- A header of the packet filter has 18 bytes, on which alone its fields depend, and an aligned
-- length is no shorter.
pub record IsBpfHeader (bpf : BpfHeader) : Type 0 where
  pub hdrlen_ext :
      (m m' : Memory) (cur : ℕ)
      → ((x : ℕ) → cur ≤ x → x < cur + 18 → m' x ≡ m x)
      → bpf.hdrlen m' cur ≡ bpf.hdrlen m cur
  pub caplen_ext :
      (m m' : Memory) (cur : ℕ)
      → ((x : ℕ) → cur ≤ x → x < cur + 18 → m' x ≡ m x)
      → bpf.caplen m' cur ≡ bpf.caplen m cur
  pub word_align_le : (n : ℕ) → n ≤ bpf.word_align n

-- In the buffer of the reads, from `lo` to `limit`, a callback writes at most to the packet that it is
-- given. Elsewhere, as in a block of the pool, it writes what it likes.
abbrev pub IsLocal : {World : Type 0} → OnPacket World → ℕ → ℕ → Type 0
IsLocal {World} on_packet lo limit =
    (world after : World) (a n x : ℕ)
    → on_packet.call world a n ≡ some after
    → lo ≤ x
    → x < limit
    → (x < a) ⊎ (a + n ≤ x)
    → on_packet.memory after x ≡ on_packet.memory world x

-- The frames that stand from `cur` to `limit`, each with its packet's address and size.
pub data Frames (bpf : BpfHeader) (m : Memory) (limit : ℕ) : ℕ → List (ℕ × ℕ) → Type 0 where
  done : (cur : ℕ) → limit ≤ cur → Frames bpf m limit cur []
  one_frame :
      (cur hdrlen caplen : ℕ) (packets : List (ℕ × ℕ))
      → cur + hdrlen + caplen ≤ limit
      → bpf.hdrlen m cur ≡ hdrlen
      → bpf.caplen m cur ≡ caplen
      → 18 ≤ hdrlen
      → 14 ≤ caplen
      → hdrlen + caplen < 2 ^ 32
      → cur + bpf.word_align (hdrlen + caplen) < 2 ^ 64
      → Frames bpf m limit (cur + bpf.word_align (hdrlen + caplen)) packets
      → Frames bpf m limit cur ((cur + hdrlen + 14, caplen - 14) ∷ packets)

-- The callback on one packet after the other.
unfoldable pub each_packet : {World : Type 0} → OnPacket World → List (ℕ × ℕ) → World → Option World
each_packet on_packet [] world = some world
each_packet on_packet ((a, n) ∷ packets) world =
    on_packet.call world a n >>= each_packet on_packet packets
