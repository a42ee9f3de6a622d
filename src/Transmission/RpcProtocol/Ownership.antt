-- ===== src/Transmission/RpcProtocol/Ownership.antt =====
-- Who holds the block of a call's buffer.
use zn_tunnel.Prelude.{
  ℕ, Bool, ltb, ◌≤◌, ◌<◌, ◌+◌, ◌^◌, ◌≡◌, refl, sym, ap, subst, ◌∙◌, List, [], ◌∷◌, Option, some,
  arith, true, false, Bool-cases, ◌⊎◌, inl, inr,
}
use zn_tunnel.Memory.{Memory}
use zn_tunnel.Buffer.{Buffer, new_buffer, prefix_space, move_front_boundary}
use zn_tunnel.Pool.{Pool, alloc, free}
use zn_tunnel.Pool.Ownership.{IsPool, Fresh, takes, Step-IsPool, free-IsPool}
use zn_tunnel.Containers.Order.{nat_eq}
use zn_tunnel.Containers.HashMap
use zn_tunnel.Containers.OrderedMap
use zn_tunnel.Transmission.Json.{Json}
use zn_tunnel.Transmission.Constant.{Command, request}
use zn_tunnel.Transmission.Cryptor.{Cipher}
use zn_tunnel.Transmission.Rpc.State.{
  Rpc, ControlBlock, ErrorCode, no_error, failed, initial_remain, decrement, is_spent, start_send,
  request_sending, next_id,
}
use zn_tunnel.Transmission.Rpc.Timer.{on_request_timer, request_timer_at}
use zn_tunnel.Transmission.Rpc.Handler.{send, frame}
use zn_tunnel.Transmission.RpcProtocol.{
  OnComplete, OnReply, reads_reply, reply_payload, on_json_reply, send_json,
}
use zn_tunnel.Transmission.RpcProtocol.Buffers.{write_json-IsMessage}

module _ {State Endpoint Callback : Type 0} (cipher : Cipher State)
    (endpoint_less : Endpoint → Endpoint → Bool) where
  sends_again :
      (rpc : Rpc State Endpoint Callback) (c : ℕ) (b : ControlBlock Endpoint Callback)
      → HashMap.find c rpc.controls ≡ some b
      → 2 ≤ b.remain
      → b.remain ≤ 128
      → on_request_timer endpoint_less rpc no_error c
        ≡ some (
            start_send
              (record rpc {
                controls = HashMap.assign c (record b { remain = decrement b.remain }) rpc.controls;
              })
              b
              (request_sending c))
  unfolding on_request_timer request_timer_at failed decrement is_spent
  sends_again rpc c b held low high = ground (arith, held)

  -- A control block that is sent, and the buffer that it holds.
  timer_keeps :
      (rpc : Rpc State Endpoint Callback) (c : ℕ) (b : ControlBlock Endpoint Callback)
      → HashMap.find c rpc.controls ≡ some b
      → 2 ≤ b.remain
      → b.remain ≤ 128
      → (sent : Rpc State Endpoint Callback) × (after : ControlBlock Endpoint Callback)
        × (on_request_timer endpoint_less rpc no_error c ≡ some sent)
        × (HashMap.find c sent.controls ≡ some after)
        × (after.buffer ≡ b.buffer)
  unfolding start_send
  timer_keeps rpc c b held low high =
      let kept = record b { remain = decrement b.remain } in
      (
        start_send (record rpc { controls = HashMap.assign c kept rpc.controls }) b
            (request_sending c),
        kept,
        sends_again rpc c b held low high,
        HashMap.find-assign_self c kept rpc.controls,
        refl,
      )

  frame_keeps :
      (rpc : Rpc State Endpoint Callback) (buf : Buffer) (command : Command) (id : ℕ)
      → (frame cipher endpoint_less rpc buf command id).1.internal ≡ buf.internal
  unfolding frame move_front_boundary
  frame_keeps rpc buf command id = ground arith

  -- The control block that `send` makes, and the state once it is filed.
  abbrev request_block :
      Rpc State Endpoint Callback
      → Endpoint
      → Buffer
      → Option Callback
      → ControlBlock Endpoint Callback
  request_block rpc to buf on_complete =
      let (id, next) = next_id rpc.next in
      record {
        remain = initial_remain rpc.retry;
        endpoint = to;
        id = id;
        buffer = (frame cipher endpoint_less (record rpc { next = next }) buf request id).1;
        on_complete = on_complete;
      }

  abbrev filed_request :
      Rpc State Endpoint Callback
      → ℕ
      → Endpoint
      → Buffer
      → Option Callback
      → Rpc State Endpoint Callback
  filed_request rpc c to buf on_complete =
      let (id, next) = next_id rpc.next in
      let framed = (frame cipher endpoint_less (record rpc { next = next }) buf request id).0 in
      record framed {
        controls = HashMap.assign c (request_block rpc to buf on_complete) framed.controls;
        requesting = OrderedMap.assign ltb id c framed.requesting;
      }

  -- `send` holds the block of its buffer in a control block.
  send_holds :
      (rpc : Rpc State Endpoint Callback) (c : ℕ) (to : Endpoint) (buf : Buffer)
      (on_complete : Option Callback)
      → 3 ≤ prefix_space buf
      → 2 ≤ rpc.retry
      → rpc.retry ≤ 128
      → (sent : Rpc State Endpoint Callback) × (held : ControlBlock Endpoint Callback) × (send
            cipher endpoint_less rpc c to buf on_complete
          ≡ some sent)
        × (HashMap.find c sent.controls ≡ some held)
        × (held.buffer.internal ≡ buf.internal)
  unfolding send initial_remain frame
  send_holds rpc c to buf on_complete room low high =
      let enough : ltb (prefix_space buf) 3 ≡ false = ground (arith, room) in
      let b = request_block rpc to buf on_complete in
      let filed = filed_request rpc c to buf on_complete in
      let kept =
        timer_keeps filed c b (HashMap.find-assign_self c b rpc.controls) (omega (arith, low, high))
          (omega (arith, low, high)) in
      (
        kept.0,
        kept.1,
        rw enough kept.2,
        kept.3,
        ap (λ (x : Buffer). x.internal) kept.4
            ∙ frame_keeps (record rpc { next = (next_id rpc.next).1 }) buf request
                (next_id rpc.next).0,
      )

module _ {J : Type 0} (json : Json J) where
  -- The callback of a request that ends, with a failure or a reply, always has a value to give.
  reply_payload_returns :
      (m : Memory) (err : ErrorCode) (reply : Option Buffer)
      → (failed err ≡ true) ⊎ ((got : Buffer) × (reply ≡ some got))
      → (payload : J) × (reply_payload json m err reply ≡ some payload)
  unfolding reply_payload
  reply_payload_returns m err reply (inl failure) = rw failure (_, refl)
  reply_payload_returns m err reply (inr (got, came)) = elim (Bool-cases (failed err)) [
    | inl failure ↦ rw failure (_, refl)
    | inr fine ↦ rw (fine, came) (_, refl)
  ]

  module _ {State Endpoint Caller : Type 0} (cipher : Cipher State)
      (endpoint_less : Endpoint → Endpoint → Bool) where
    -- A call lends one block of the pool, which a control block holds from then on; and when the call
    -- ends, with a failure or a reply, its callback gives that block back, so that the clients of the
    -- pool hold what they held before. The pool is sound and its next block is at `a`, the value has
    -- a text, and `retry` is from 2 to 128.
    pub send_json-on_json_reply :
        (rpc : Rpc State Endpoint (OnComplete Caller)) (pool rest : Pool) (lent : List ℕ)
        (chunk a c : ℕ) (to : Endpoint) (payload : J) (text : List ℕ) (on_reply : OnReply Caller)
        (m : Memory) (err : ErrorCode) (reply : Option Buffer)
        → IsPool 1600 pool lent
        → (pool.available ≡ [] → Fresh 1600 pool chunk)
        → alloc 1600 pool chunk ≡ some (new_buffer a 1600, rest)
        → a + 1600 < 2 ^ 64
        → json.dump payload ≡ some text
        → 2 ≤ rpc.retry
        → rpc.retry ≤ 128
        → (failed err ≡ true) ⊎ ((got : Buffer) × (reply ≡ some got))
        → (sent : Rpc State Endpoint (OnComplete Caller)) × (answer : J) × (after : Pool)
          × (send_json json cipher endpoint_less rpc pool chunk c to payload on_reply
              ≡ some (sent, rest))
          × IsPool 1600 rest (a ∷ lent)
          × (on_json_reply json m rest sent.controls err reply (some c) ≡ some (answer, after))
          × IsPool 1600 after lent
    unfolding send_json on_json_reply new_buffer
    send_json-on_json_reply rpc pool rest lent chunk a c to payload text on_reply m err reply sound
          fresh given mapped dumped low high ended =
        let message =
          write_json-IsMessage json rpc.memory pool rest chunk a payload text given mapped dumped in
        let (written, buf, wrote, fits, reads) = message in
        let held =
          send_holds cipher endpoint_less (record rpc { memory = written }) c to buf
            (some (reads_reply on_reply)) (omega (arith, fits.room)) low high in
        let ends = reply_payload_returns m err reply ended in
        let lent_now : IsPool 1600 rest (a ∷ lent) =
          Step-IsPool 1600 (takes pool lent chunk (new_buffer a 1600) rest fresh given) sound in
        let block : held.1.buffer.internal ≡ a = held.4 ∙ fits.block in
        (
          held.0,
          ends.0,
          free rest held.1.buffer,
          rw wrote (rw held.2 refl),
          lent_now,
          rw (held.3, ends.1) refl,
          free-IsPool 1600 rest [] lent held.1.buffer
              (subst (λ (x : ℕ). IsPool 1600 rest (x ∷ lent)) (sym block) lent_now),
        )
