-- ===== src/Tests/Buffers.antt =====
-- BufferPool.h: `Buffer` on a block of 1600 bytes at address 4096.
use zn_tunnel.Prelude.{ℕ, ◌+◌, ◌≡◌, refl, List, [], ◌∷◌, pos, negsuc, arith}
use zn_tunnel.Memory.{Memory, load16, load_list, store16, store_list}
use zn_tunnel.Buffer.{
  Buffer, new_buffer, resize, prefix_space, suffix_space, move_front_boundary, read_string,
  read_string_from_front, write_string, write_string_to_back,
}
use zn_tunnel.Buffer.Bounds.{IsValid, spaces_add}
use zn_tunnel.Buffer.RoundTrip.{Fits, read_string-write_string}

abbrev pub blank : Memory
blank a = 0

-- What `sendJson` prepares: ten bytes in front, and nothing written yet.
abbrev pub outgoing : Buffer
outgoing = record { internal = 4096; internal_size = 1600; start = 4106; size = 0 }

abbrev pub hello : List ℕ
hello = 104 ∷ 105 ∷ []

outgoing_made : resize (move_front_boundary (new_buffer 4096 1600) (pos 10)) 0 ≡ outgoing
unfolding resize move_front_boundary new_buffer
outgoing_made = refl

outgoing_spaces : (prefix_space outgoing ≡ 10) × (suffix_space outgoing ≡ 1590)
unfolding prefix_space suffix_space
outgoing_spaces = (refl, refl)

moved_back : move_front_boundary outgoing (negsuc 2) ≡ record outgoing { start = 4103; size = 3 }
unfolding move_front_boundary
moved_back = refl

too_far : move_front_boundary outgoing (negsuc 10) ≡ outgoing
unfolding move_front_boundary
too_far = refl

sent_and_read :
    let w = write_string_to_back blank outgoing hello in
    read_string_from_front w.memory w.buffer ≡ (hello, record outgoing { start = 4110; size = 0 })
unfolding write_string_to_back read_string_from_front store_list store16 load_list load16
sent_and_read = refl

pub outgoing-IsValid : IsValid outgoing
outgoing-IsValid = omega arith

hello-Fits : Fits outgoing hello 0
hello-Fits = omega arith

read_string-write_string_example :
    let w = write_string blank outgoing hello 0 in read_string w.memory w.buffer 0 ≡ hello
read_string-write_string_example =
    read_string-write_string blank hello 0 outgoing-IsValid hello-Fits

-- A block of twelve bytes has no room for a string of ten.
abbrev small : Buffer
small = record { internal = 4096; internal_size = 12; start = 4096; size = 0 }

abbrev ten : List ℕ
ten = 1 ∷ 2 ∷ 3 ∷ 4 ∷ 5 ∷ 6 ∷ 7 ∷ 8 ∷ 9 ∷ 10 ∷ []

spaces_add_example : prefix_space outgoing + 0 + suffix_space outgoing ≡ 1600
spaces_add_example = spaces_add outgoing-IsValid
