-- ===== src/RawSocket/Device.antt =====
-- `open`, `close`, `read` and `write` of RawSocketImpl, and `start` and `stop` of RawSocket.
use zn_tunnel.Prelude.{
  ℕ, zero, suc, ◌+◌, Bool, true, false, List, [], ◌∷◌, Option, none, some, if◌then◌else◌, ◌>>=◌, ℤ,
  pos, negsuc, leb_ℤ, take,
}
use zn_tunnel.Config.Text.{String}
use zn_tunnel.RawSocket.Interfaces.{InterfaceInfo, use_interface}

-- `_buf` is an address. -1 is `negsuc 0`.
pub record RawSocketImpl : Type 0 where
  pub fd : ℤ
  pub buf_len : ℤ
  pub buf : ℕ
  pub readable_len : ℤ

abbrev pub new_impl : RawSocketImpl
new_impl = record { fd = negsuc 0; buf_len = pos 0; buf = 0; readable_len = pos 0 }

unfoldable pub is_minus_one : ℤ → Bool
is_minus_one (pos n) = false
is_minus_one (negsuc zero) = true
is_minus_one (negsuc (suc n)) = false

-- The loop over the devices at `i`, with `n` rounds left, over what `::open` returns for each.
unfoldable pub open_device : (ℕ → ℤ) → ℕ → ℕ → ℤ → ℤ
open_device opens zero i fd = fd
open_device opens (suc n) i fd =
    let next = open_device opens n (i + 1) (opens i) in if is_minus_one fd then next else fd

-- The four calls of `ioctl` that `open` may make, and what they are asked.
pub data Ioctl : Type 0 where
  set_interface : String → Ioctl
  immediate : Ioctl
  get_buffer_len : Ioctl
  see_sent : Ioctl

-- What the kernel answers: whether a call succeeds, and the length that the third one stores.
pub record Answers : Type 0 where
  pub succeeds : Ioctl → Bool
  pub buffer_len : ℕ

-- The conjunction of the four tests, each of which asks the next only if its own call fails: the
-- calls that were made, and whether all of them failed.
unfoldable pub all_fail : Answers → List Ioctl → List Ioctl × Bool
all_fail answers [] = ([], true)
all_fail answers (call ∷ rest) =
    let (made, failed) = all_fail answers rest in
    if answers.succeeds call then (call ∷ [], false) else (call ∷ made, failed)

-- Whether the length was asked for, and answered.
unfoldable pub learns_length : Answers → List Ioctl → Bool
learns_length answers [] = false
learns_length answers (get_buffer_len ∷ rest) = answers.succeeds get_buffer_len
learns_length answers (_ ∷ rest) = learns_length answers rest

-- `ifr_name` is made from the first character of the name.
unfoldable pub ioctls : String → List Ioctl
ioctls name = set_interface (take 1 name) ∷ immediate ∷ get_buffer_len ∷ see_sent ∷ []

-- `open(portFrom, portTo, ifName)`, which does not use the ports, with the address of the new
-- buffer: the calls that it makes and what becomes of the object; none is an exception.
unfoldable pub open_impl :
    (ℕ → ℤ) → Answers → ℕ → RawSocketImpl → String → Option (List Ioctl × RawSocketImpl)
open_impl opens answers address impl name =
    let fd = open_device opens 99 0 impl.fd in
    let (made, failed) = all_fail answers (ioctls name) in
    if is_minus_one fd
    then none
    else if failed
    then none
    else some (
      made,
      record impl {
        fd = fd;
        buf_len = if learns_length answers made then pos answers.buffer_len else impl.buf_len;
        buf = address;
      },
    )

unfoldable pub close_impl : RawSocketImpl → RawSocketImpl
close_impl impl = record impl { fd = negsuc 0 }

-- `opened()`, `consumable()`.
unfoldable pub opened : RawSocketImpl → Bool
opened impl = leb_ℤ (pos 1) impl.fd

unfoldable pub consumable : RawSocketImpl → Bool
consumable impl = leb_ℤ (pos 1) impl.readable_len

-- `read()`, with what `::read` returns for a buffer of a length.
unfoldable pub read_impl : (ℤ → ℤ) → RawSocketImpl → Option (ℤ × RawSocketImpl)
read_impl reads impl =
    if opened impl
    then some (reads impl.buf_len, record impl { readable_len = reads impl.buf_len })
    else none

-- The members of RawSocket that are not of its thread.
pub record RawSocket : Type 0 where
  pub if_name : String
  pub if_address : ℕ
  pub impl : RawSocketImpl
  pub reading : Bool

-- `start(context, portFrom, portTo, ifName)` up to the thread.
unfoldable pub start :
    (ℕ → ℤ) → Answers → ℕ → List InterfaceInfo → RawSocket → String → Option RawSocket
start opens answers address infos socket name = do
  i ← use_interface infos name
  (made, impl) ← open_impl opens answers address socket.impl i.name
  some (record { if_name = i.name; if_address = i.address; impl = impl; reading = true })

unfoldable pub stop : RawSocket → RawSocket
stop socket = record socket { reading = false; impl = close_impl socket.impl }
