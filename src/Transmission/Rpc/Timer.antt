-- ===== src/Transmission/Rpc/Timer.antt =====
-- `_onReplyTimer` and `_onRequestTimer` of libtun/include/libtun/transmission/Rpc.h, and what runs when
-- an asynchronous operation ends. `none` is a control block that is gone, or an empty callback.
use zn_tunnel.Prelude.{
  Bool, ◌||◌, ℕ, List, [], ◌∷◌, ◌++◌, Option, none, some, if◌then◌else◌, ltb, ◌==◌,
}
use zn_tunnel.Containers.Order.{nat_eq}
use zn_tunnel.Containers.HashMap
use zn_tunnel.Containers.OrderedMap
use zn_tunnel.Transmission.Rpc.State.{
  Rpc, ControlBlock, ErrorCode, timed_out, failed, Pending, reply_sending, reply_waiting,
  request_sending, request_waiting, id_less, decrement, is_spent, call_back, start_send,
}

module _ {State Endpoint Callback : Type 0} (endpoint_less : Endpoint → Endpoint → Bool) where
  unfoldable pub reply_timer_at :
      Rpc State Endpoint Callback
      → ErrorCode
      → ℕ
      → ControlBlock Endpoint Callback
      → Option (Rpc State Endpoint Callback)
  unfolding call_back start_send id_less
  reply_timer_at rpc err c b =
      let left = decrement b.remain in
      if is_spent left || failed err
      then elim (call_back rpc b.on_complete err (some b.buffer) (some c)) [
        | none ↦ none
        | some called ↦ some (record called {
          replying =
              OrderedMap.erase (id_less endpoint_less) (record { endpoint = b.endpoint; id = b.id })
                called.replying;
          controls = HashMap.erase c called.controls;
        })
      ]
      else some (
          start_send
            (record rpc { controls = HashMap.assign c (record b { remain = left }) rpc.controls }) b
            (reply_sending c))

  -- `_onReplyTimer(err, control)`.
  unfoldable pub on_reply_timer :
      Rpc State Endpoint Callback → ErrorCode → ℕ → Option (Rpc State Endpoint Callback)
  unfolding reply_timer_at
  on_reply_timer rpc err c = elim (HashMap.find c rpc.controls) [
    | none ↦ none
    | some b ↦ reply_timer_at rpc err c b
  ]

  -- The callback of a request that ends without a reply: one of two, or none.
  unfoldable pub finish_request :
      Rpc State Endpoint Callback
      → ErrorCode
      → ℕ
      → ControlBlock Endpoint Callback
      → ℕ
      → Option (Rpc State Endpoint Callback)
  unfolding call_back
  finish_request rpc err c b left =
      if left == 0
      then call_back rpc b.on_complete timed_out none (some c)
      else if failed err
      then call_back rpc b.on_complete err none (some c)
      else some rpc

  unfoldable pub request_timer_at :
      Rpc State Endpoint Callback
      → ErrorCode
      → ℕ
      → ControlBlock Endpoint Callback
      → Option (Rpc State Endpoint Callback)
  unfolding finish_request start_send
  request_timer_at rpc err c b =
      let left = decrement b.remain in
      if is_spent left || failed err
      then elim (finish_request rpc err c b left) [
        | none ↦ none
        | some finished ↦ some (record finished {
          requesting = OrderedMap.erase ltb b.id finished.requesting;
          controls = HashMap.erase c finished.controls;
        })
      ]
      else some (
          start_send
            (record rpc { controls = HashMap.assign c (record b { remain = left }) rpc.controls }) b
            (request_sending c))

  -- `_onRequestTimer(err, control)`.
  unfoldable pub on_request_timer :
      Rpc State Endpoint Callback → ErrorCode → ℕ → Option (Rpc State Endpoint Callback)
  unfolding request_timer_at
  on_request_timer rpc err c = elim (HashMap.find c rpc.controls) [
    | none ↦ none
    | some b ↦ request_timer_at rpc err c b
  ]

  -- What runs when an operation ends with an error code.
  unfoldable pub resume :
      Rpc State Endpoint Callback → Pending → ErrorCode → Option (Rpc State Endpoint Callback)
  unfolding on_reply_timer on_request_timer
  resume rpc (reply_sending c) err =
      if failed err then on_reply_timer rpc err c else elim (HashMap.find c rpc.controls) [
        | none ↦ none
        | some b ↦ some (record rpc { pending = rpc.pending ++ reply_waiting c ∷ [] })
      ]
  resume rpc (reply_waiting c) err = on_reply_timer rpc err c
  resume rpc (request_sending c) err =
      if failed err then on_request_timer rpc err c else elim (HashMap.find c rpc.controls) [
        | none ↦ none
        | some b ↦ some (record rpc { pending = rpc.pending ++ request_waiting c ∷ [] })
      ]
  resume rpc (request_waiting c) err = on_request_timer rpc err c

  -- The oldest operation under way ends.
  unfoldable pub finish_first :
      Rpc State Endpoint Callback → List Pending → ErrorCode → Option (Rpc State Endpoint Callback)
  unfolding resume
  finish_first rpc [] err = some rpc
  finish_first rpc (operation ∷ rest) err = resume (record rpc { pending = rest }) operation err
