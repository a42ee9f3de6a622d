-- ===== src/Tunnel.antt =====
-- The tunnel device: class Tunnel of libtun/include/libtun/Tunnel.h and class TunnelImpl of
-- libtun/include/libtun/impl/Tunnel/Tunnel_darwin.h. The results of system calls are arguments.
pub mod Packets
use zn_tunnel.Prelude.{
  ℕ, ◌+◌, ◌-◌, ◌^◌, ◌≡◌, Bool, true, false, ◌&&◌, ◌||◌, not, List, [], ◌∷◌, Option, none, some,
  if◌then◌else◌, ltb, length, ℤ, pos, negsuc, leb_ℤ, u32,
}
use zn_tunnel.Memory.{Memory, store, store_list, load_list}
use zn_tunnel.Buffer.{Buffer, prefix_space, resize, move_front_boundary}
use zn_tunnel.Config.Text.{String}

pub record TunnelImpl : Type 0 where
  pub fd : ℤ
  pub if_name : String

abbrev pub new_tunnel : TunnelImpl
new_tunnel = record { fd = negsuc 0; if_name = [] }

-- What the system calls of `openTunnel` return: a socket, and whether the others succeed, with the
-- name that the last one stores.
pub record OpenCalls : Type 0 where
  pub socket : ℤ
  pub gets_info : Bool
  pub connects : Bool
  pub gets_name : Option String

-- The object after `openTunnel()`, and whether it returned: false is an exception.
unfoldable pub open_tunnel : OpenCalls → TunnelImpl → TunnelImpl × Bool
open_tunnel calls impl =
    let opened = record impl { fd = calls.socket } in
    if leb_ℤ calls.socket (negsuc 0) && leb_ℤ (negsuc 0) calls.socket
    then (opened, false)
    else if calls.gets_info && calls.connects
    then elim calls.gets_name [
      | none ↦ (opened, false)
      | some name ↦ (record opened { if_name = name }, true)
    ]
    else (opened, false)

unfoldable pub close_tunnel : TunnelImpl → TunnelImpl
close_tunnel impl = if leb_ℤ (pos 1) impl.fd then record impl { fd = negsuc 0 } else impl

-- `Tunnel::open()`.
unfoldable pub try_open : OpenCalls → TunnelImpl → TunnelImpl × Bool
try_open calls impl =
    let (opened, returned) = open_tunnel calls impl in
    if returned then (opened, true) else (close_tunnel opened, false)

-- The number that `::read` returns, as the `uint32_t` that it is passed on as: a failure is -1.
unfoldable pub read_length : Option (List ℕ) → ℕ
read_length none = u32 (2 ^ 32 - 1)
read_length (some bytes) = u32 (length bytes)

unfoldable pub read_bytes : Option (List ℕ) → List ℕ
read_bytes none = []
read_bytes (some bytes) = bytes

-- `read(buf)`, with the bytes that `::read` stores: none is a failure.
unfoldable pub read : TunnelImpl → Memory → Buffer → Option (List ℕ) → Memory × Buffer
read impl m buf result = if leb_ℤ impl.fd (pos 0) then (m, buf) else (
  store_list m buf.start (read_bytes result),
  move_front_boundary (resize buf (read_length result)) (pos 4),
)

-- The assignment of 4 through a `uint32_t *` that is made of the first byte of the buffer, in the byte
-- order of the machine.
-- The first page of addresses is never mapped: a store to it is undefined, which is `none`.
unfoldable pub store_family : Memory → ℕ → Option Memory
store_family m data_at =
    if ltb (m data_at) 4096 then none else some (store_list m (m data_at) (4 ∷ 0 ∷ 0 ∷ 0 ∷ []))

-- `write(buf)`: the memory, and the bytes that are given to `::write`; an inner none is no call.
unfoldable pub write : TunnelImpl → Memory → Buffer → Option (Memory × Option (List ℕ))
unfolding store_family
write impl m buf =
    let moved = move_front_boundary buf (negsuc 3) in
    if ltb (prefix_space buf) 4 || leb_ℤ impl.fd (pos 0)
    then some (m, none)
    else elim (store_family m moved.start) [
      | none ↦ none
      | some written ↦ some (written, some (load_list written moved.start moved.size))
    ]
