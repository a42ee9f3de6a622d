-- ===== src/Transmission/Rpc/State.antt =====
-- The state of `class Rpc`, libtun/include/libtun/transmission/Rpc.h. The event loop is explicit:
-- `pending` holds the asynchronous operations under way. Callbacks and endpoints are values of any
-- types; what is sent and which callbacks are made goes to `outputs`, in order.
use zn_tunnel.Prelude.{
  ℕ, ◌+◌, Bool, true, false, ◌||◌, not, List, [], ◌∷◌, ◌++◌, Option, none, some, if◌then◌else◌, ltb,
  leb, ◌==◌, u8, u16,
}
use zn_tunnel.Memory.{Memory, load_list}
use zn_tunnel.Buffer.{Buffer}
use zn_tunnel.Transmission.Cryptor.{Cryptor}

-- `boost::system::error_code`.
pub data ErrorCode : Type 0 where
  no_error timed_out no_buffer_space : ErrorCode
  system : ℕ → ErrorCode

unfoldable pub failed : ErrorCode → Bool
failed no_error = false
failed _ = true

-- `remain` is the bit pattern of an `int8_t`; an empty `onComplete` is `none`.
pub record ControlBlock (Endpoint Callback : Type 0) : Type 0 where
  pub remain : ℕ
  pub endpoint : Endpoint
  pub id : ℕ
  pub buffer : Buffer
  pub on_complete : Option Callback

pub record IdWithEndpoint (Endpoint : Type 0) : Type 0 where
  pub endpoint : Endpoint
  pub id : ℕ

-- `IDWithEndpoint::operator <`, over that of the endpoints.
unfoldable pub id_less :
    {Endpoint : Type 0}
    → (Endpoint → Endpoint → Bool)
    → IdWithEndpoint Endpoint
    → IdWithEndpoint Endpoint
    → Bool
id_less endpoint_less a b =
    if not (a.id == b.id) then ltb a.id b.id else endpoint_less a.endpoint b.endpoint

-- The operations under way, each with the address of its control block.
pub data Pending : Type 0 where
  reply_sending reply_waiting request_sending request_waiting : ℕ → Pending

pub data Output (Endpoint Callback : Type 0) : Type 0 where
  sends : Endpoint → List ℕ → Output Endpoint Callback
  completes : Callback → ErrorCode → Option Buffer → Option ℕ → Output Endpoint Callback

-- `next` is `_id`; the memory is that which buffers point to.
pub record Rpc (State Endpoint Callback : Type 0) : Type 0 where
  pub next : ℕ
  pub retry : ℕ
  pub cryptor : Cryptor State
  pub memory : Memory
  pub controls : List (ℕ × ControlBlock Endpoint Callback)
  pub replying : List (IdWithEndpoint Endpoint × ℕ)
  pub requesting : List (ℕ × ℕ)
  pub pending : List Pending
  pub outputs : List (Output Endpoint Callback)

-- What `onRequest` did: it returned false, or true with a buffer and a callback for the reply.
pub data Answer (Callback : Type 0) : Type 0 where
  ignored : Memory → Answer Callback
  answered : Memory → Buffer → Option Callback → Answer Callback

-- The number that `_nextId` returns, and the `_id` after it.
unfoldable pub next_id : ℕ → ℕ × ℕ
next_id id = if id == 0xffff then (0xffff, 1) else (id, u16 (id + 1))

-- `_retry` as the `int8_t` that it is assigned to.
unfoldable pub initial_remain : ℕ → ℕ
initial_remain retry = u8 retry

unfoldable pub decrement : ℕ → ℕ
decrement remain = u8 (remain + 255)

-- `remain <= 0`.
unfoldable pub is_spent : ℕ → Bool
is_spent remain = remain == 0 || leb 128 remain

module _ {State Endpoint Callback : Type 0} where
  -- A call of a `std::function`, which throws if it is empty: that is `none`.
  unfoldable pub call_back :
      Rpc State Endpoint Callback
      → Option Callback
      → ErrorCode
      → Option Buffer
      → Option ℕ
      → Option (Rpc State Endpoint Callback)
  call_back rpc none err buffer control = none
  call_back rpc (some callback) err buffer control =
      some (record rpc { outputs = rpc.outputs ++ completes callback err buffer control ∷ [] })

  -- `async_send_to` of a control block's buffer.
  unfoldable pub start_send :
      Rpc State Endpoint Callback
      → ControlBlock Endpoint Callback
      → Pending
      → Rpc State Endpoint Callback
  start_send rpc b operation = record rpc {
    pending = rpc.pending ++ operation ∷ [];
    outputs =
        rpc.outputs ++ sends b.endpoint (load_list rpc.memory b.buffer.start b.buffer.size) ∷ [];
  }
