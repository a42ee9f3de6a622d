-- ===== src/Transmission/Rpc/Packet.antt =====
-- What one side frames and sends, the other side's `feed` takes apart:
-- libtun/include/libtun/transmission/Rpc.h.
use zn_tunnel.Prelude.{
  ℕ, suc, ◌+◌, ◌-◌, ◌*◌, ◌/◌, ◌^◌, ◌≤◌, ◌<◌, ◌≡◌, refl, sym, ap, ap₂, ◌∙◌, inl, inr, Bool, Option,
  arith, sub32, pos, negsuc,
}
use zn_tunnel.Memory.{Memory, store, store16, load16, load_list}
use zn_tunnel.Memory.Laws.{
  IsBytes, store_self, store_ne, store-IsBytes, load16-store16, store16_ne, load_list-ext,
  load_list_split,
}
use zn_tunnel.Buffer.{Buffer, move_front_boundary}
use zn_tunnel.Buffer.Bounds.{IsValid, move_front_boundary_back, move_front_boundary_forward}
use zn_tunnel.Transmission.Constant.{Command, command_code, request, reply, transmit}
use zn_tunnel.Transmission.Cryptor.{Cipher, IsCipher, Cryptor, encrypt, encrypt_to, decrypt}
use zn_tunnel.Transmission.Cryptor.Laws.{
  IsSynchronized, encrypt_outside, decrypt_outside, decrypt-encrypt_to,
}
use zn_tunnel.Transmission.Rpc.State.{Rpc, Answer}
use zn_tunnel.Transmission.Rpc.Handler.{frame, feed, dispatch}

-- A packet in the clear, and its content.
abbrev pub clear : Memory → ℕ → Command → ℕ → Memory
clear m a command id = store16 (store m a (command_code command)) (a + 1) id

command_code-lt : (command : Command) → command_code command < 256
unfolding command_code
command_code-lt request = omega arith
command_code-lt reply = omega arith
command_code-lt transmit = omega arith

clear-IsBytes :
    (m : Memory) (a : ℕ) (command : Command) (id : ℕ) → IsBytes m → IsBytes (clear m a command id)
unfolding store16
clear-IsBytes m a command id h =
    store-IsBytes _ (a + 1 + 1) id
      (store-IsBytes _ (a + 1) (id / 256) (store-IsBytes m a (command_code command) h))

clear_command :
    (m : Memory) (a : ℕ) (command : Command) (id : ℕ)
    → clear m a command id a ≡ command_code command
clear_command m a command id =
    store16_ne _ (a + 1) id a (inl (omega arith))
    ∙ store_self m a (command_code command) (command_code-lt command)

clear_content :
    (m : Memory) (a : ℕ) (command : Command) (id n : ℕ)
    → load_list (clear m a command id) (a + 1 + 1 + 1) n ≡ load_list m (a + 1 + 1 + 1) n
clear_content m a command id n = load_list-ext _ m (a + 1 + 1 + 1) n (λ x p q.
    store16_ne _ (a + 1) id x (inr (omega arith))
    ∙ store_ne m a (command_code command) x (omega arith))

load_list_cong :
    {m m' : Memory} {a a' n n' : ℕ}
    → m ≡ m'
    → a ≡ a'
    → n ≡ n'
    → load_list m a n ≡ load_list m' a' n'
load_list_cong {m' = m'} {a' = a'} {n' = n'} p q r = rw (p, q, r) refl

load16-of_list :
    (m m' : Memory) (a b n : ℕ)
    → load_list m a (suc (suc n)) ≡ load_list m' b (suc (suc n))
    → (load16 m a ≡ load16 m' b) × (load_list m (a + 1 + 1) n ≡ load_list m' (b + 1 + 1) n)
unfolding load16
load16-of_list m m' a b n e =
    let (first, others) = load_list_split m m' a b (suc n) e in
    let (second, rest) = load_list_split m m' (a + 1) (b + 1) n others in
    (ap₂ (λ (p q : ℕ). p * 256 + q) first second, rest)

module _ {State : Type 0} (cipher : Cipher State) (laws : IsCipher cipher) where
  -- A packet of `n` bytes that was encrypted but for its command, decrypted where it came.
  decrypt_packet :
      (m m' : Memory) (sender receiver : Cryptor State) (a b n id : ℕ) (command : Command)
      → IsBytes m
      → id < 2 ^ 16
      → IsSynchronized cipher laws sender
      → IsSynchronized cipher laws receiver
      → receiver.key ≡ sender.key
      → receiver.iv ≡ sender.iv
      → load_list m' b (suc (suc (suc n)))
        ≡ load_list
            (encrypt cipher (clear m a command id) sender (a + 1) (suc (suc n))).0
            a
            (suc (suc (suc n)))
      → let d = (decrypt cipher m' receiver (b + 1) (suc (suc n))).0 in
        (d b ≡ command_code command)
        × (load16 d (b + 1) ≡ id)
        × (load_list d (b + 1 + 1 + 1) n ≡ load_list m (a + 1 + 1 + 1) n)
  unfolding encrypt_to encrypt
  decrypt_packet m m' sender receiver a b n id command bytes small vs vr k i received =
      let s = clear m a command id in
      let (first, others) = load_list_split m' _ b a (suc (suc n)) received in
      let back =
        decrypt-encrypt_to cipher laws s m' sender receiver (a + 1) (a + 1) (b + 1) (suc (suc n))
          (clear-IsBytes m a command id bytes) vs vr k i others in
      let (number, content) = load16-of_list _ s (b + 1) (a + 1) n back in
      (
        decrypt_outside cipher laws m' receiver (b + 1) (suc (suc n)) b (inl (omega arith))
            ∙ first
            ∙ encrypt_outside cipher laws s sender (a + 1) (suc (suc n)) a (inl (omega arith))
            ∙ clear_command m a command id,
        number ∙ load16-store16 _ (a + 1) id small,
        content ∙ clear_content m a command id n,
      )

  module _ {Endpoint Callback : Type 0} (endpoint_less : Endpoint → Endpoint → Bool)
      (on_request : Memory → Buffer → Endpoint → ℕ → Answer Callback) where
    -- Two ends with one key, a buffer with room for the three bytes, and a buffer at the other end
    -- into which the datagram came.
    pub record Link (sender receiver : Rpc State Endpoint Callback) (buf got : Buffer)
        (command : Command) (id : ℕ) : Type 0 where
      pub bytes : IsBytes sender.memory
      pub small : id < 2 ^ 16
      pub at_sender : IsSynchronized cipher laws sender.cryptor
      pub at_receiver : IsSynchronized cipher laws receiver.cryptor
      pub same_key : receiver.cryptor.key ≡ sender.cryptor.key
      pub same_iv : receiver.cryptor.iv ≡ sender.cryptor.iv
      pub valid : IsValid buf
      pub room : buf.internal + 3 ≤ buf.start
      pub got_valid : IsValid got
      pub got_size : got.size ≡ (frame cipher endpoint_less sender buf command id).1.size
      pub received :
          let (framed, out) = frame cipher endpoint_less sender buf command id in
          load_list receiver.memory got.start got.size ≡ load_list framed.memory out.start out.size

    frame_lem :
        (sender : Rpc State Endpoint Callback) (buf : Buffer) (command : Command) (id : ℕ)
        → IsValid buf
        → buf.internal + 3 ≤ buf.start
        → let (framed, out) = frame cipher endpoint_less sender buf command id in
          (out.start ≡ buf.start - 3)
          × (out.size ≡ suc (suc (suc buf.size)))
          × (framed.memory
              ≡ (encrypt cipher
                  (clear sender.memory (buf.start - 3) command id)
                  sender.cryptor
                  (buf.start - 3 + 1)
                  (suc (suc buf.size))).0)
    unfolding frame
    frame_lem sender buf command id v room =
        let (at, wide) = move_front_boundary_back {b = buf} 2 v (omega arith) in
        let rest : sub32 (move_front_boundary buf (negsuc 2)).size 1 ≡ suc (suc buf.size) =
          omega (arith, wide) in
        (at, omega (arith, wide), rw (at, rest))

    abbrev unpack :
        Rpc State Endpoint Callback
        → ℕ
        → Endpoint
        → Buffer
        → ℕ
        → Option (Rpc State Endpoint Callback)
    unpack rpc fresh from buf n =
        let (m, cryptor) = decrypt cipher rpc.memory rpc.cryptor (buf.start + 1) n in
        dispatch cipher endpoint_less on_request (record rpc { memory = m; cryptor = cryptor })
          fresh from (move_front_boundary buf (pos 3)) (m buf.start) (load16 m (buf.start + 1))

    -- Two ends have one key and one vector, and a datagram came whole into a buffer of the
    -- receiver. What `frame` made of a buffer with room for three bytes, `feed` takes apart: it
    -- dispatches the command and the number that were framed, with a buffer of the bytes that
    -- the sender had in its.
    pub feed-frame :
        (sender receiver : Rpc State Endpoint Callback) (fresh : ℕ) (from : Endpoint)
        (buf got : Buffer) (command : Command) (id : ℕ)
        → Link sender receiver buf got command id
        → (m : Memory) × (cryptor : Cryptor State) × (let content =
              move_front_boundary got (pos 3) in
            (feed cipher endpoint_less on_request receiver fresh from got
              ≡ dispatch cipher endpoint_less on_request
                  (record receiver { memory = m; cryptor = cryptor })
                  fresh
                  from
                  content
                  (command_code command)
                  id)
            × (load_list m content.start content.size ≡ load_list sender.memory buf.start buf.size))
    unfolding frame feed
    feed-frame sender receiver fresh from buf got command id l =
        let (at, wide, sent) = frame_lem sender buf command id l.valid l.room in
        let size : got.size ≡ suc (suc (suc buf.size)) = l.got_size ∙ wide in
        let rest : sub32 got.size 1 ≡ suc (suc buf.size) = omega (arith, size) in
        let (content_at, content_size) =
          move_front_boundary_forward {b = got} 3 l.got_valid (omega arith) in
        let (type, number, content) =
          decrypt_packet sender.memory receiver.memory sender.cryptor receiver.cryptor
            (buf.start - 3) got.start buf.size id command l.bytes l.small l.at_sender l.at_receiver
            l.same_key l.same_iv
            (load_list_cong refl refl (sym size) ∙ l.received ∙ load_list_cong sent at wide) in
        let (m, cryptor) =
          decrypt cipher receiver.memory receiver.cryptor (got.start + 1) (suc (suc buf.size)) in
        (
          m,
          cryptor,
          (
            ap (unpack receiver fresh from got) rest
                ∙ ap₂
                    (dispatch cipher endpoint_less on_request
                      (record receiver { memory = m; cryptor = cryptor }) fresh from
                      (move_front_boundary got (pos 3)))
                    type number,
            load_list_cong refl (content_at ∙ omega arith) (content_size ∙ omega (arith, size))
                ∙ content
                ∙ load_list_cong refl (omega arith) refl,
          ),
        )
