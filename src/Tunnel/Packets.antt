-- ===== src/Tunnel/Packets.antt =====
-- What passes through the tunnel device.
use zn_tunnel.Prelude.{
  ℕ, suc, ◌+◌, ◌-◌, ◌≤◌, ◌≡◌, refl, sym, ap, ◌∙◌, true, false, ◌⊎◌, List, ◌++◌, none, some, arith,
  All, zero, u32, drop, length-append, length, pos, negsuc, leb_ℤ,
}
use zn_tunnel.Memory.{Memory, store_list, load_list}
use zn_tunnel.Memory.Laws.{load_list-store_list, IsByte, IsBytes}
use zn_tunnel.Buffer.{Buffer, prefix_space, resize, move_front_boundary}
use zn_tunnel.Buffer.Bounds.{IsValid}
use zn_tunnel.Config.Text.{String, drop-append}
use zn_tunnel.Tunnel.{
  TunnelImpl, OpenCalls, open_tunnel, close_tunnel, try_open, read_length, read_bytes, read,
  store_family, write,
}

-- The system calls of `openTunnel` all succeed.
abbrev pub Succeed : OpenCalls → Type 0
Succeed calls =
    (leb_ℤ (pos 1) calls.socket ≡ true)
    × (calls.gets_info ≡ true)
    × (calls.connects ≡ true)
    × ((name : String) × (calls.gets_name ≡ some name))

-- `open` of Tunnel returns true, with the socket and the name of the interface, where all the system
-- calls succeed; and where it returns false, no socket is kept, the one that it opened among them.
pub try_open_lem :
    (calls : OpenCalls) (impl : TunnelImpl)
    → (leb_ℤ (pos 1) calls.socket ≡ true) ⊎ (calls.socket ≡ negsuc 0)
    → ((try_open calls impl).1 ≡ true)
        × (((try_open calls impl).0.fd ≡ calls.socket)
            × (calls.gets_name ≡ some (try_open calls impl).0.if_name))
      ⊎ ((try_open calls impl).1 ≡ false) × ((try_open calls impl).0.fd ≡ negsuc 0)
unfolding try_open open_tunnel close_tunnel
try_open_lem calls impl answer = ground (arith, answer)

drop-load_list : (m : Memory) (k a n : ℕ) → drop k (load_list m a n) ≡ load_list m (a + k) (n - k)
unfolding load_list
drop-load_list m zero a n =
    let here : a + 0 ≡ a = omega arith in let all : n - 0 ≡ n = omega arith in rw (here, all) refl
drop-load_list m (suc k) a zero = let nothing : 0 - suc k ≡ 0 = omega arith in rw nothing refl
drop-load_list m (suc k) a (suc n) =
    let there : a + suc k ≡ a + 1 + k = omega arith in
    let left : suc n - suc k ≡ n - k = omega arith in
    rw (there, left) (drop-load_list m k (a + 1) n)

-- The window behind the family.
read_window :
    (buf : Buffer) (len : ℕ)
    → IsValid buf
    → 4 ≤ len
    → len ≤ buf.size
    → let window = move_front_boundary (resize buf (u32 len)) (pos 4) in
      (window.start ≡ buf.start + 4) × (window.size ≡ len - 4)
unfolding move_front_boundary resize
read_window buf len v four fits = ground (arith, v)

-- A packet that is read stands in the window that `read` returns, without the four bytes in front of
-- it that name its family.
pub read_packet :
    (impl : TunnelImpl) (m : Memory) {buf : Buffer} (family packet : List ℕ)
    → leb_ℤ (pos 1) impl.fd ≡ true
    → IsValid buf
    → length family ≡ 4
    → length (family ++ packet) ≤ buf.size
    → All IsByte (family ++ packet)
    → let (after, window) = read impl m buf (some (family ++ packet)) in
      load_list after window.start window.size ≡ packet
unfolding read read_length read_bytes
read_packet impl m {buf} family packet on v four fits bytes =
    let bytes_read = family ++ packet in
    let closed : leb_ℤ impl.fd (pos 0) ≡ false = ground (arith, on) in
    let (start, size) =
      read_window buf (length bytes_read) v (omega (arith, four, length-append family packet))
        fits in
    let same : load_list (store_list m buf.start bytes_read) buf.start (length bytes_read)
        ≡ bytes_read =
      load_list-store_list m buf.start bytes_read bytes in
    rw (closed, start, size)
      (sym (drop-load_list (store_list m buf.start bytes_read) 4 buf.start (length bytes_read))
        ∙ ap (drop 4) same
        ∙ ap (λ (n : ℕ). drop n bytes_read) (sym four)
        ∙ drop-append family packet)

-- A read that fails returns the whole of the buffer but its first four bytes, as if they had been
-- read.
pub read_failure :
    (impl : TunnelImpl) (m : Memory) {buf : Buffer}
    → leb_ℤ (pos 1) impl.fd ≡ true
    → IsValid buf
    → 4 ≤ buf.size
    → let (after, window) = read impl m buf none in
      (after ≡ m) × (window.start ≡ buf.start + 4) × (window.size ≡ buf.size - 4)
unfolding read read_length read_bytes store_list move_front_boundary resize
read_failure impl m {buf} on v long = ground (arith, v)

-- On an open device, with four bytes of room and a memory of bytes, `write` never comes to `::write`,
-- whatever the packet: the address that it stores to is a byte, and the first page is not mapped.
pub write_faults :
    (impl : TunnelImpl) (m : Memory) (buf : Buffer)
    → leb_ℤ (pos 1) impl.fd ≡ true
    → IsBytes m
    → 4 ≤ prefix_space buf
    → write impl m buf ≡ none
unfolding write store_family
write_faults impl m buf on bytes room =
    ground (arith, on, room, bytes (move_front_boundary buf (negsuc 3)).start)
