-- ===== src/Transmission/Rpc/Replies.antt =====
-- How often the callback of a request is made: replies that come twice, and requests that are
-- dropped without a word.
use mathlib.Core.List.{append_assoc}
use zn_tunnel.Prelude.{ℕ, ◌≤◌, ◌<◌, ◌≡◌, refl, ◌⊎◌, Bool, [], ◌∷◌, ◌++◌, none, some, arith, u8, ltb}
use zn_tunnel.Memory.{Memory}
use zn_tunnel.Buffer.{Buffer, prefix_space}
use zn_tunnel.Containers.Order.{nat_eq, ltb-StrictOrder}
use zn_tunnel.Containers.HashMap
use zn_tunnel.Containers.OrderedMap
use zn_tunnel.Transmission.Constant.{request, reply, command_code}
use zn_tunnel.Transmission.Cryptor.{Cipher}
use zn_tunnel.Transmission.Rpc.State.{
  Rpc, ControlBlock, Answer, no_error, failed, completes, request_waiting, decrement, is_spent,
  initial_remain, next_id,
}
use zn_tunnel.Transmission.Rpc.Timer.{finish_first, on_request_timer}
use zn_tunnel.Transmission.Rpc.Handler.{send, frame, dispatch}

module _ {State Endpoint Callback : Type 0} (cipher : Cipher State)
    (endpoint_less : Endpoint → Endpoint → Bool)
    (on_request : Memory → Buffer → Endpoint → ℕ → Answer Callback) where
  -- The request with number `id` waits, in control block `c`.
  pub record Waits (rpc : Rpc State Endpoint Callback) (id c : ℕ)
      (b : ControlBlock Endpoint Callback) (callback : Callback) : Type 0 where
    pub filed : OrderedMap.find ltb id rpc.requesting ≡ some c
    pub held : HashMap.find c rpc.controls ≡ some b
    pub called : b.on_complete ≡ some callback

  abbrev delivered :
      Rpc State Endpoint Callback
      → Buffer
      → ℕ
      → ControlBlock Endpoint Callback
      → Callback
      → Rpc State Endpoint Callback
  delivered rpc buf c b callback = record rpc {
    controls = HashMap.assign c (record b { remain = 0 }) rpc.controls;
    outputs = rpc.outputs ++ completes callback no_error (some buf) (some c) ∷ [];
  }

  dispatch_reply :
      (rpc : Rpc State Endpoint Callback) (fresh : ℕ) (from : Endpoint) (buf : Buffer) (id c : ℕ)
      (b : ControlBlock Endpoint Callback) (callback : Callback)
      → Waits rpc id c b callback
      → dispatch cipher endpoint_less on_request rpc fresh from buf (command_code reply) id
        ≡ some (delivered rpc buf c b callback)
  unfolding dispatch command_code
  dispatch_reply rpc fresh from buf id c b callback w = ground (arith, w)

  delivered-Waits :
      (rpc : Rpc State Endpoint Callback) (buf : Buffer) (id c : ℕ)
      (b : ControlBlock Endpoint Callback) (callback : Callback)
      → Waits rpc id c b callback
      → Waits (delivered rpc buf c b callback) id c (record b { remain = 0 }) callback
  delivered-Waits rpc buf id c b callback w = record {
    filed = w.filed;
    held = HashMap.find-assign_self c (record b { remain = 0 }) rpc.controls;
    called = w.called;
  }

  -- A request waits, and its reply comes twice before the timer runs, as a server that sends
  -- each reply again and again makes it do: the callback of the request is made twice.
  pub reply_twice_completes_twice :
      (rpc : Rpc State Endpoint Callback) (fresh : ℕ) (from : Endpoint) (buf buf' : Buffer)
      (id c : ℕ) (b : ControlBlock Endpoint Callback) (callback : Callback)
      → Waits rpc id c b callback
      → (once : Rpc State Endpoint Callback) × (twice : Rpc State Endpoint Callback) × (dispatch
            cipher endpoint_less on_request rpc fresh from buf
            (command_code reply)
            id
          ≡ some once)
        × (dispatch cipher endpoint_less on_request once fresh from buf' (command_code reply) id
            ≡ some twice)
        × (twice.outputs
            ≡ rpc.outputs
              ++ completes callback no_error (some buf) (some c)
                ∷ completes callback no_error (some buf') (some c)
                ∷ [])
  reply_twice_completes_twice rpc fresh from buf buf' id c b callback w =
      let once = delivered rpc buf c b callback in
      (
        once,
        delivered once buf' c (record b { remain = 0 }) callback,
        dispatch_reply rpc fresh from buf id c b callback w,
        dispatch_reply once fresh from buf' id c (record b { remain = 0 }) callback
            (delivered-Waits rpc buf id c b callback w),
        append_assoc rpc.outputs _ _,
      )

  -- A request waits in a control block of its number, in a map that is in order, and has its reply
  -- while its timer is the only operation under way: the callback is made once, without an error;
  -- then the timer runs out and says no more, and the request is gone from both maps.
  pub reply_then_timer :
      (rpc : Rpc State Endpoint Callback) (fresh : ℕ) (from : Endpoint) (buf : Buffer) (id c : ℕ)
      (b : ControlBlock Endpoint Callback) (callback : Callback)
      → Waits rpc id c b callback
      → b.id ≡ id
      → OrderedMap.Sorted ltb rpc.requesting
      → rpc.pending ≡ request_waiting c ∷ []
      → (once : Rpc State Endpoint Callback) × (after : Rpc State Endpoint Callback) × (dispatch
            cipher endpoint_less on_request rpc fresh from buf
            (command_code reply)
            id
          ≡ some once)
        × (finish_first endpoint_less once once.pending no_error ≡ some after)
        × (after.outputs ≡ rpc.outputs ++ completes callback no_error (some buf) (some c) ∷ [])
        × (after.pending ≡ [])
        × (HashMap.find c after.controls ≡ none)
        × (OrderedMap.find ltb id after.requesting ≡ none)
  reply_then_timer rpc fresh from buf id c b callback w own sorted alone =
      let once = delivered rpc buf c b callback in
      (
        once,
        record once {
          controls = HashMap.erase c once.controls;
          requesting = OrderedMap.erase ltb b.id once.requesting;
          pending = [];
        },
        dispatch_reply rpc fresh from buf id c b callback w,
        timer,
        refl,
        refl,
        HashMap.find-erase_self c once.controls,
        rw own (OrderedMap.find-erase_self ltb ltb-StrictOrder id rpc.requesting sorted),
      )
    where
      timer :
          let once = delivered rpc buf c b callback in
          finish_first endpoint_less once rpc.pending no_error
          ≡ some (record once {
            controls = HashMap.erase c once.controls;
            requesting = OrderedMap.erase ltb b.id once.requesting;
            pending = [];
          })
      timer =
          unfold finish_first failed decrement is_spent in
          ground (arith, alone, HashMap.find-assign_self c (record b { remain = 0 }) rpc.controls)

  abbrev forgotten :
      Rpc State Endpoint Callback → ℕ → ControlBlock Endpoint Callback → Rpc State Endpoint Callback
  forgotten rpc c b = record rpc {
    controls = HashMap.erase c rpc.controls;
    requesting = OrderedMap.erase ltb b.id rpc.requesting;
  }

  on_request_timer_forgets :
      (rpc : Rpc State Endpoint Callback) (c : ℕ) (b : ControlBlock Endpoint Callback)
      → HashMap.find c rpc.controls ≡ some b
      → (b.remain ≡ 0) ⊎ (129 ≤ b.remain)
      → b.remain < 256
      → on_request_timer endpoint_less rpc no_error c ≡ some (forgotten rpc c b)
  unfolding on_request_timer failed decrement is_spent
  on_request_timer_forgets rpc c b held h small = ground (arith, held)

  -- With a `retry` whose low byte is 0, or from 129 on, which is an `int8_t` below 0 once it is
  -- decremented, and room for three bytes: a request is not sent, its callback is not made, and
  -- it is forgotten at once.
  pub send_dropped :
      (rpc : Rpc State Endpoint Callback) (c : ℕ) (to : Endpoint) (buf : Buffer)
      (callback : Callback)
      → 3 ≤ prefix_space buf
      → (u8 rpc.retry ≡ 0) ⊎ (129 ≤ u8 rpc.retry)
      → (after : Rpc State Endpoint Callback) × (send cipher endpoint_less rpc c to buf
            (some callback)
          ≡ some after)
        × (after.outputs ≡ rpc.outputs)
        × (after.pending ≡ rpc.pending)
        × (HashMap.find c after.controls ≡ none)
  unfolding send frame
  send_dropped rpc c to buf callback room h =
      let id = (next_id rpc.next).0 in
      let (framed, out) =
        frame cipher endpoint_less (record rpc { next = (next_id rpc.next).1 }) buf request id in
      let b : ControlBlock Endpoint Callback = record {
        remain = initial_remain rpc.retry;
        endpoint = to;
        id = id;
        buffer = out;
        on_complete = some callback;
      } in
      let filed = record framed {
        controls = HashMap.assign c b framed.controls;
        requesting = OrderedMap.assign ltb id c framed.requesting;
      } in
      (
        forgotten filed c b,
        ground (
          arith,
          on_request_timer_forgets filed c b (HashMap.find-assign_self c b framed.controls) h
              (omega arith),
        ),
        refl,
        refl,
        HashMap.find-erase_self c filed.controls,
      )
