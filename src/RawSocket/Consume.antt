-- ===== src/RawSocket/Consume.antt =====
-- `RawSocketImpl::consume`: the frames of a buffer that the packet filter filled, one after the other.
-- What it calls, `onPacket`, works on a state that has a memory; none is an exception, or fuel that
-- ran out. What is only logged is left out.
use zn_tunnel.Prelude.{
  ℕ, zero, suc, ◌+◌, ◌*◌, Option, none, some, if◌then◌else◌, ◌>>=◌, ltb, u32, u64, sub32, pos,
  pos_part,
}
use zn_tunnel.Memory.{Memory}
use zn_tunnel.RawSocket.Device.{RawSocketImpl, consumable}

-- What the system's headers give: two fields of the `bpf_hdr` at an address, and BPF_WORDALIGN.
pub record BpfHeader : Type 0 where
  pub hdrlen : Memory → ℕ → ℕ
  pub caplen : Memory → ℕ → ℕ
  pub word_align : ℕ → ℕ

-- ETHER_HEADER_LEN.
abbrev pub ether_header_len : ℕ
ether_header_len = 12 * 1 + 2

-- A state with a memory, and the callback `onPacket` on it.
pub record OnPacket (World : Type 0) : Type 0 where
  pub memory : World → Memory
  pub call : World → ℕ → ℕ → Option World

module _ {World : Type 0} (bpf : BpfHeader) (on_packet : OnPacket World) where
  -- The address and the size of the packet of the frame at `cur`.
  unfoldable pub ip_data : Memory → ℕ → ℕ
  ip_data m cur = u64 (cur + bpf.hdrlen m cur + ether_header_len)

  unfoldable pub ip_size : Memory → ℕ → ℕ
  ip_size m cur = sub32 (bpf.caplen m cur) ether_header_len

  -- The next frame, by the lengths as they are once the callback is done.
  unfoldable pub next_frame : Memory → ℕ → ℕ
  next_frame m cur = u64 (cur + bpf.word_align (u32 (bpf.hdrlen m cur + bpf.caplen m cur)))

  -- The loop from `cur` on, with fuel.
  unfoldable pub consume_loop : ℕ → ℕ → ℕ → World → Option World
  consume_loop zero cur limit world = none
  consume_loop (suc fuel) cur limit world =
      let m = on_packet.memory world in
      if ltb cur limit
      then (do
        after ← on_packet.call world (ip_data m cur) (ip_size m cur)
        consume_loop fuel (next_frame (on_packet.memory after) cur) limit after)
      else some world

  -- `consume(onPacket)`.
  unfoldable pub consume : ℕ → RawSocketImpl → World → Option (RawSocketImpl × World)
  consume fuel impl world =
      if consumable impl
      then (do
        after ← consume_loop fuel impl.buf (impl.buf + pos_part impl.readable_len) world
        some (record impl { readable_len = pos 0 }, after))
      else some (impl, world)
