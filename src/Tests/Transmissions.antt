-- ===== src/Tests/Transmissions.antt =====
-- Cryptor.h and Rpc.h, with the shifting cipher, endpoints and callbacks that are numbers, and the
-- buffer of `sendJson`.
use zn_tunnel.Prelude.{ℕ, ◌≡◌, refl, ap, sym, ltb, [], ◌∷◌, none, some, pos, arith}
use zn_tunnel.Memory.{Memory, load_list}
use zn_tunnel.Buffer.{Buffer, move_front_boundary}
use zn_tunnel.Containers.Order.{nat_eq}
use zn_tunnel.Containers.HashMap
use zn_tunnel.Containers.OrderedMap
use zn_tunnel.Transmission.Constant.{request, reply, command_code}
use zn_tunnel.Transmission.Cryptor.{Cryptor, new_cryptor, encrypt, encrypt_to, decrypt}
use zn_tunnel.Transmission.Cryptor.Laws.{made, encrypts, decrypt-encrypt}
use zn_tunnel.Transmission.Rpc.State.{
  Rpc, ControlBlock, Answer, ignored, no_error, completes, request_sending, request_waiting,
}
use zn_tunnel.Transmission.Rpc.Handler.{frame, feed, dispatch}
use zn_tunnel.Transmission.Rpc.Timer.{finish_first}
use zn_tunnel.Transmission.Rpc.Packet.{Link, feed-frame}
use zn_tunnel.Transmission.Rpc.Rounds.{double, settle, Sending, GaveUp, settle-GaveUp}
use zn_tunnel.Transmission.Rpc.Replies.{Waits, reply_twice_completes_twice, reply_then_timer}
use zn_tunnel.Tests.Buffers.{blank, outgoing}
use zn_tunnel.Tests.Protocols.{memory, memory-IsBytes}
use zn_tunnel.Tests.Ciphers.{Shift, shifting, shifting-IsCipher, cryptor, cryptor-IsSynchronized}

abbrev pub ignore : Memory → Buffer → ℕ → ℕ → Answer ℕ
ignore m buf from id = ignored m

abbrev pub state : Rpc Shift ℕ ℕ
state = record {
  next = 5;
  retry = 2;
  cryptor = cryptor;
  memory = blank;
  controls = [];
  replying = [];
  requesting = [];
  pending = [];
  outputs = [];
}

-- A cryptor of the other side, which has encrypted a packet before.
abbrev used : Cryptor Shift
used = (encrypt_to shifting blank cryptor 2000 3000 8).1

decrypt-encrypt_example :
    let sent = (encrypt shifting memory cryptor 1000 24).0 in
    load_list (decrypt shifting sent used 1000 24).0 1000 24 ≡ load_list memory 1000 24
unfolding new_cryptor
decrypt-encrypt_example =
    decrypt-encrypt shifting shifting-IsCipher memory (encrypt shifting memory cryptor 1000 24).0
      cryptor used 1000 1000 24 memory-IsBytes made (encrypts blank 2000 3000 8 made) refl

abbrev block : ControlBlock ℕ ℕ
block = record { remain = 2; endpoint = 77; id = 5; buffer = outgoing; on_complete = some 1 }

abbrev waiting : Rpc Shift ℕ ℕ
waiting = record state {
  controls = (9000, block) ∷ [];
  requesting = (5, 9000) ∷ [];
  pending = request_waiting 9000 ∷ [];
}

waiting-Waits : Waits shifting ltb ignore waiting 5 9000 block 1
unfolding HashMap.find OrderedMap.find
waiting-Waits = record { filed = refl; held = refl; called = refl }

reply_twice_completes_twice_example :
    (once : Rpc Shift ℕ ℕ) × (twice : Rpc Shift ℕ ℕ) × (dispatch shifting ltb ignore waiting 9001 77
        outgoing
        (command_code reply)
        5
      ≡ some once)
    × (dispatch shifting ltb ignore once 9001 77 outgoing (command_code reply) 5 ≡ some twice)
    × (twice.outputs
        ≡ completes 1 no_error (some outgoing) (some 9000)
          ∷ completes 1 no_error (some outgoing) (some 9000)
          ∷ [])
reply_twice_completes_twice_example =
    reply_twice_completes_twice shifting ltb ignore waiting 9001 77 outgoing outgoing 5 9000 block 1
      waiting-Waits

reply_then_timer_example :
    (once : Rpc Shift ℕ ℕ) × (after : Rpc Shift ℕ ℕ) × (dispatch shifting ltb ignore waiting 9001 77
        outgoing
        (command_code reply)
        5
      ≡ some once)
    × (finish_first ltb once once.pending no_error ≡ some after)
    × (after.outputs ≡ completes 1 no_error (some outgoing) (some 9000) ∷ [])
    × (after.pending ≡ [])
    × (HashMap.find 9000 after.controls ≡ none)
    × (OrderedMap.find ltb 5 after.requesting ≡ none)
reply_then_timer_example =
    reply_then_timer shifting ltb ignore waiting 9001 77 outgoing 5 9000 block 1 waiting-Waits refl
      (tt, tt) refl

abbrev sending : Rpc Shift ℕ ℕ
sending = record waiting { pending = request_sending 9000 ∷ [] }

sending-Sending : Sending ltb sending 9000 block 1
unfolding HashMap.find
sending-Sending = record { alone = refl; held = refl; called = refl }

settle-GaveUp_example :
    (after : Rpc Shift ℕ ℕ) × (settle ltb (double 2) sending ≡ some after)
    × GaveUp ltb sending 9000 block 1 1 after
settle-GaveUp_example = settle-GaveUp ltb 1 sending 9000 block 1 refl (omega arith) sending-Sending

-- The packet of the other tests, in a buffer with ten bytes in front.
abbrev content : Buffer
content = record { internal = 990; internal_size = 200; start = 1000; size = 24 }

abbrev received : Buffer
received = record { internal = 990; internal_size = 200; start = 997; size = 27 }

abbrev sender : Rpc Shift ℕ ℕ
sender = record state { memory = memory }

abbrev receiver : Rpc Shift ℕ ℕ
receiver = record state { memory = (frame shifting ltb sender content request 513).0.memory }

framed_buffer : (frame shifting ltb sender content request 513).1 ≡ received
unfolding frame move_front_boundary
framed_buffer = refl

link : Link shifting shifting-IsCipher ltb ignore sender receiver content received request 513
link = record {
  bytes = memory-IsBytes;
  small = omega arith;
  at_sender = cryptor-IsSynchronized;
  at_receiver = cryptor-IsSynchronized;
  same_key = refl;
  same_iv = refl;
  valid = omega arith;
  room = omega arith;
  got_valid = omega arith;
  got_size = ap (λ (b : Buffer). b.size) (sym framed_buffer);
  received = ap (λ (b : Buffer). load_list receiver.memory b.start b.size) (sym framed_buffer);
}

feed-frame_example :
    (m : Memory) × (c : Cryptor Shift) × (let inner = move_front_boundary received (pos 3) in
      (feed shifting ltb ignore receiver 9001 77 received
        ≡ dispatch shifting ltb ignore
            (record receiver { memory = m; cryptor = c })
            9001
            77
            inner
            (command_code request)
            513)
      × (load_list m inner.start inner.size ≡ load_list memory 1000 24))
feed-frame_example =
    feed-frame shifting shifting-IsCipher ltb ignore sender receiver 9001 77 content received
      request 513 link
