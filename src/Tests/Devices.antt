-- ===== src/Tests/Devices.antt =====
-- RawSocket.h, RawSocket_darwin.h and Tunnel_darwin.h.
use zn_tunnel.RawSocket.Reader.{mutex_free, after_consume}
use zn_tunnel.Memory.{store}
use zn_tunnel.Prelude.{
  ◌≤◌, ℕ, ◌+◌, ◌*◌, ◌/◌, ◌≡◌, refl, [], ◌∷◌, ◌++◌, List, none, some, true, false, arith, pos,
}
use zn_tunnel.Memory.{Memory, store_list, load_list}
use zn_tunnel.Buffer.{Buffer, prefix_space}
use zn_tunnel.Buffer.Bounds.{IsValid}
use zn_tunnel.RawSocket.Device.{RawSocketImpl}
use zn_tunnel.RawSocket.Consume.{BpfHeader, OnPacket}
use zn_tunnel.RawSocket.Frames.{Frames, each_packet}
use zn_tunnel.RawSocket.Reader.{
  Reader, waiting, in_read, after_read, thread_starts, Steps, here, then_step, stops, consumes,
  IsStuck, Steps-IsStuck,
}
use zn_tunnel.Tunnel.{TunnelImpl, read, write}
use zn_tunnel.Tunnel.Packets.{read_packet, write_faults}
use zn_tunnel.Tests.Buffers.{blank}

-- A header with its lengths in the bytes 8 and 16, and lengths that are rounded up to 4.
abbrev bpf : BpfHeader
bpf = record {
  hdrlen = λ m cur. m (cur + 16);
  caplen = λ m cur. m (cur + 8);
  word_align = λ n. (n + 3) / 4 * 4;
}

-- A callback that lists the packets, and writes the size of each to a block elsewhere.
abbrev World : Type 0
World = Memory × List (ℕ × ℕ)

abbrev lists : OnPacket World
lists = record {
  memory = λ world. world.0;
  call = λ world a n. some (store world.0 9000 n, world.1 ++ (a, n) ∷ []);
}

-- Two frames at 4096, of 18 + 40 and 18 + 20 bytes.
abbrev two_frames : Memory
two_frames =
    store_list (store_list blank 4104 (40 ∷ 0 ∷ 0 ∷ 0 ∷ 40 ∷ 0 ∷ 0 ∷ 0 ∷ 18 ∷ [])) 4164
      (20 ∷ 0 ∷ 0 ∷ 0 ∷ 20 ∷ 0 ∷ 0 ∷ 0 ∷ 18 ∷ [])

abbrev filled : RawSocketImpl
filled = record { fd = pos 3; buf_len = pos 4096; buf = 4096; readable_len = pos 98 }

both_listed :
    each_packet lists ((4128, 26) ∷ (4188, 6) ∷ []) (two_frames, [])
    ≡ some (store (store two_frames 9000 26) 9000 6, (4128, 26) ∷ (4188, 6) ∷ [])
unfolding each_packet
both_listed = refl

-- A read that times out.
abbrev reads_nothing : Reader
reads_nothing = record { phase = in_read; reading = true; readable_len = pos 7; posted = 0 }

abbrev stuck : Reader
stuck = record { phase = waiting; reading = true; readable_len = pos 0; posted = 1 }

abbrev stopped : Reader
stopped = record { phase = waiting; reading = false; readable_len = pos 0; posted = 0 }

stuck-stopped : Steps (after_read reads_nothing (pos 0)) stopped
unfolding after_read thread_starts mutex_free after_consume
stuck-stopped =
    then_step _ _ _ (then_step _ _ _ (here stuck) (consumes stuck 0 refl refl))
      (stops (record stuck { posted = 0 }))

Steps-IsStuck_example : IsStuck stopped
Steps-IsStuck_example = Steps-IsStuck reads_nothing stopped (pos 0) refl refl refl stuck-stopped

abbrev tunnel : TunnelImpl
tunnel = record { fd = pos 5; if_name = 117 ∷ [] }

abbrev whole : Buffer
whole = record { internal = 4096; internal_size = 1600; start = 4106; size = 1590 }

whole-IsValid : IsValid whole
whole-IsValid = omega arith

read_packet_example :
    let (after, window) = read tunnel blank whole (some (0 ∷ 0 ∷ 0 ∷ 2 ∷ 69 ∷ 0 ∷ [])) in
    load_list after window.start window.size ≡ 69 ∷ 0 ∷ []
read_packet_example =
    read_packet tunnel blank (0 ∷ 0 ∷ 0 ∷ 2 ∷ []) (69 ∷ 0 ∷ []) refl whole-IsValid refl
      (omega arith) (omega arith)

write_faults_example : write tunnel blank whole ≡ none
write_faults_example = write_faults tunnel blank whole refl (λ x. omega arith) room
  where
    room : 4 ≤ prefix_space whole
    room = unfold prefix_space in omega arith
