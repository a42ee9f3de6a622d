-- ===== src/Transmission/Rpc/Handler.antt =====
-- `send` and `feed` of libtun/include/libtun/transmission/Rpc.h. The address of a new control block
-- is an argument. `none` is a control block that is gone, or an empty callback.
use zn_tunnel.Prelude.{
  ℕ, ◌+◌, Bool, true, false, ◌&&◌, Option, none, some, if◌then◌else◌, ltb, ◌==◌, sub32, pos, negsuc,
}
use zn_tunnel.Memory.{Memory, store, store16, load16}
use zn_tunnel.Buffer.{Buffer, prefix_space, move_front_boundary}
use zn_tunnel.Containers.Order.{nat_eq}
use zn_tunnel.Containers.HashMap
use zn_tunnel.Containers.OrderedMap
use zn_tunnel.Transmission.Constant.{Command, request, reply, command_code}
use zn_tunnel.Transmission.Cryptor.{Cipher, encrypt, decrypt}
use zn_tunnel.Transmission.Rpc.State.{
  Rpc, ControlBlock, no_error, no_buffer_space, Answer, ignored, answered, id_less, next_id,
  initial_remain, call_back,
}
use zn_tunnel.Transmission.Rpc.Timer.{on_reply_timer, on_request_timer}

module _ {State Endpoint Callback : Type 0} (cipher : Cipher State)
    (endpoint_less : Endpoint → Endpoint → Bool) where
  -- The three bytes in front: a command, a number, and everything but the command encrypted.
  unfoldable pub frame :
      Rpc State Endpoint Callback → Buffer → Command → ℕ → Rpc State Endpoint Callback × Buffer
  frame rpc buf command id =
      let framed = move_front_boundary buf (negsuc 2) in
      let at_start = framed.start in
      let m = store16 (store rpc.memory at_start (command_code command)) (at_start + 1) id in
      let (m', cryptor) = encrypt cipher m rpc.cryptor (at_start + 1) (sub32 framed.size 1) in
      (record rpc { memory = m'; cryptor = cryptor }, framed)

  -- `send(to, buf, onComplete)`, with the address of the new control block.
  unfoldable pub send :
      Rpc State Endpoint Callback
      → ℕ
      → Endpoint
      → Buffer
      → Option Callback
      → Option (Rpc State Endpoint Callback)
  unfolding call_back frame on_request_timer next_id initial_remain
  send rpc c to buf on_complete =
      if ltb (prefix_space buf) 3
      then call_back rpc on_complete no_buffer_space none none
      else let (id, next) = next_id rpc.next in
        let (framed, out) = frame (record rpc { next = next }) buf request id in
        let b : ControlBlock Endpoint Callback = record {
          remain = initial_remain rpc.retry;
          endpoint = to;
          id = id;
          buffer = out;
          on_complete = on_complete;
        } in
        on_request_timer endpoint_less
          (record framed {
            controls = HashMap.assign c b framed.controls;
            requesting = OrderedMap.assign ltb id c framed.requesting;
          })
          no_error c

  -- A request that is accepted: the reply is framed, filed and sent.
  unfoldable pub accept :
      Rpc State Endpoint Callback
      → ℕ
      → Endpoint
      → ℕ
      → Buffer
      → Option Callback
      → Option (Rpc State Endpoint Callback)
  unfolding call_back frame on_reply_timer initial_remain id_less
  accept rpc c from id buf on_complete =
      if ltb (prefix_space buf) 3
      then call_back rpc on_complete no_buffer_space none none
      else let (framed, out) = frame rpc buf reply id in
        let b : ControlBlock Endpoint Callback = record {
          remain = initial_remain rpc.retry;
          endpoint = from;
          id = id;
          buffer = out;
          on_complete = on_complete;
        } in
        on_reply_timer endpoint_less
          (record framed {
            controls = HashMap.assign c b framed.controls;
            replying =
                OrderedMap.assign (id_less endpoint_less) (record { endpoint = from; id = id }) c
                  framed.replying;
          })
          no_error c

  unfoldable pub answer_request :
      Rpc State Endpoint Callback
      → ℕ
      → Endpoint
      → ℕ
      → Answer Callback
      → Option (Rpc State Endpoint Callback)
  unfolding accept
  answer_request rpc c from id (ignored m) = some (record rpc { memory = m })
  answer_request rpc c from id (answered m buf on_complete) =
      accept (record rpc { memory = m }) c from id buf on_complete

  -- The reply to a request under way: its callback, and `remain = 0`.
  unfoldable pub deliver_reply :
      Rpc State Endpoint Callback → Buffer → ℕ → Option (Rpc State Endpoint Callback)
  unfolding call_back
  deliver_reply rpc buf c = elim (HashMap.find c rpc.controls) [
    | none ↦ none
    | some b ↦ elim (call_back rpc b.on_complete no_error (some buf) (some c)) [
      | none ↦ none
      | some called ↦
          some (record called {
            controls = HashMap.assign c (record b { remain = 0 }) called.controls;
          })
    ]
  ]

  -- `feed(from, buf)` once the packet is decrypted and taken apart.
  unfoldable pub dispatch :
      (Memory → Buffer → Endpoint → ℕ → Answer Callback)
      → Rpc State Endpoint Callback
      → ℕ
      → Endpoint
      → Buffer
      → ℕ
      → ℕ
      → Option (Rpc State Endpoint Callback)
  unfolding answer_request deliver_reply id_less
  dispatch on_request rpc c from buf type id =
      let known =
        OrderedMap.find (id_less endpoint_less) (record { endpoint = from; id = id })
          rpc.replying in
      if type == command_code request && elim known [ none ↦ true | some d ↦ false ]
      then answer_request rpc c from id (on_request rpc.memory buf from id)
      else if type == command_code reply
      then elim (OrderedMap.find ltb id rpc.requesting) [
        | none ↦ some rpc
        | some d ↦ deliver_reply rpc buf d
      ]
      else some rpc

  -- `feed(from, buf)`, with the handler `onRequest` and the address of a new control block.
  unfoldable pub feed :
      (Memory → Buffer → Endpoint → ℕ → Answer Callback)
      → Rpc State Endpoint Callback
      → ℕ
      → Endpoint
      → Buffer
      → Option (Rpc State Endpoint Callback)
  unfolding dispatch
  feed on_request rpc c from buf =
      let data_at = buf.start in
      let (m, cryptor) = decrypt cipher rpc.memory rpc.cryptor (data_at + 1) (sub32 buf.size 1) in
      dispatch on_request (record rpc { memory = m; cryptor = cryptor }) c from
        (move_front_boundary buf (pos 3)) (m data_at) (load16 m (data_at + 1))
