-- ===== src/Transmission/RpcProtocol.antt =====
-- `class RpcProtocol` of libtun/include/libtun/transmission/RpcProtocol.h: remote calls as JSON over
-- Rpc, in buffers of the pool. `none` is an exception that leaves the function.
pub mod Buffers
pub mod Login
pub mod Requests
pub mod Ownership
use zn_tunnel.Prelude.{
  ℕ, ◌≡◌, List, [], ◌∷◌, Option, none, some, Bool, true, false, ◌&&◌, not, if◌then◌else◌, ◌==◌,
  ◌>>=◌, pos,
}
use zn_tunnel.Memory.{Memory}
use zn_tunnel.Buffer.{
  Buffer, move_front_boundary, resize, write_string_to_back, read_string_from_front,
}
use zn_tunnel.Pool
use zn_tunnel.Containers.Order.{nat_eq}
use zn_tunnel.Containers.HashMap
use zn_tunnel.Transmission.Constant.{
  RpcErrorType, invalid_input, network_issue, rpc_error_code, RpcType, connect, ping, disconnect,
  rpc_type_code,
}
use zn_tunnel.Transmission.Json.{
  Json, field, number_object, call_object, type_name, username, password, error, key, iv,
}
use zn_tunnel.Transmission.Cryptor.{Cipher}
use zn_tunnel.Transmission.Rpc.State.{
  Rpc, ControlBlock, ErrorCode, failed, Answer, ignored, answered,
}
use zn_tunnel.Transmission.Rpc.Handler.{send}

-- The callbacks `onConnect`, `onPing` and `onDisconnect`, over a state of their own. An empty one
-- throws when it is called.
pub record Handlers (World Endpoint : Type 0) : Type 0 where
  pub on_connect :
      Option
        (World → Endpoint → List ℕ → List ℕ → Option ((RpcErrorType × List ℕ × List ℕ) × World))
  pub on_ping : Option (World → Endpoint → Option (RpcErrorType × World))
  pub on_disconnect : Option (World → Endpoint → Option (RpcErrorType × World))

-- The constructor leaves them empty.
unfoldable pub new_handlers : {World Endpoint : Type 0} → Handlers World Endpoint
new_handlers = record { on_connect = none; on_ping = none; on_disconnect = none }

-- What the callers of `connect`, `ping` and `disconnect` are called back with.
pub data OnReply (Caller : Type 0) : Type 0 where
  to_connect to_error : Caller → OnReply Caller

-- The callbacks that are given to Rpc: that of a reply that is sent, and that of `sendJson`.
pub data OnComplete (Caller : Type 0) : Type 0 where
  frees_buffer : OnComplete Caller
  reads_reply : OnReply Caller → OnComplete Caller

module _ {J : Type 0} (json : Json J) where
  -- A buffer of the pool, with a value's text in it. A text that does not fit is left out.
  unfoldable pub write_json : Memory → Pool.Pool → ℕ → J → Option (Memory × Buffer × Pool.Pool)
  write_json m pool chunk payload = do
    (block, rest) ← Pool.alloc 1600 pool chunk
    text ← json.dump payload
    let w = write_string_to_back m (resize (move_front_boundary block (pos 10)) 0) text in
        some (w.memory, w.buffer, rest)

  -- The reply's text; `none` within the result is `return false`.
  unfoldable pub answer_connect :
      {World Endpoint : Type 0}
      → Handlers World Endpoint
      → World
      → Endpoint
      → J
      → Option (Option J × World)
  answer_connect handlers world from payload = do
    on_connect ← handlers.on_connect
    user ← json.get_string (field json payload username)
    secret ← json.get_string (field json payload password)
    (result, after) ← on_connect world from user secret
    let (err, new_key, new_iv) = result in
        some (some (call_object json error (rpc_error_code err) key new_key iv new_iv), after)

  unfoldable pub answer_error :
      {World Endpoint : Type 0}
      → Option (World → Endpoint → Option (RpcErrorType × World))
      → World
      → Endpoint
      → Option (Option J × World)
  answer_error handler world from = do
    called ← handler
    (err, after) ← called world from
    some (some (number_object json error (rpc_error_code err)), after)

  -- The branches of `_requestHandler` on the type of a request.
  unfoldable pub answer_type :
      {World Endpoint : Type 0}
      → Handlers World Endpoint
      → World
      → Endpoint
      → J
      → ℕ
      → Option (Option J × World)
  answer_type handlers world from payload rpc_type =
      if rpc_type == rpc_type_code connect
      then answer_connect handlers world from payload
      else if rpc_type == rpc_type_code disconnect
      then answer_error handlers.on_disconnect world from
      else if rpc_type == rpc_type_code ping
      then answer_error handlers.on_ping world from
      else some (none, world)

  unfoldable pub answer_payload :
      {World Endpoint : Type 0}
      → Handlers World Endpoint
      → World
      → Endpoint
      → J
      → Option (Option J × World)
  answer_payload handlers world from payload =
      if json.is_object payload && json.is_number_integer (field json payload type_name)
      then json.get_uint8 (field json payload type_name) >>= answer_type handlers world from payload
      else some (none, world)

  -- From the test of the type on: the reply in a buffer, or nothing.
  unfoldable pub reply_with :
      {World Caller : Type 0}
      → Memory
      → Pool.Pool
      → ℕ
      → Option J
      → World
      → Option (Answer (OnComplete Caller) × Pool.Pool × World)
  reply_with m pool chunk none world = some (ignored m, pool, world)
  reply_with m pool chunk (some payload) world = do
    (written, buf, rest) ← write_json m pool chunk payload
    some (answered written buf (some frees_buffer), rest, world)

  -- `_requestHandler(buf, control)`, with the address of a new chunk of buffers.
  unfoldable pub request_handler :
      {World Endpoint Caller : Type 0}
      → Handlers World Endpoint
      → World
      → Memory
      → Pool.Pool
      → ℕ
      → Buffer
      → Endpoint
      → Option (Answer (OnComplete Caller) × Pool.Pool × World)
  request_handler handlers world m pool chunk buf from = do
    (reply, after) ←
        answer_payload handlers world from (json.parse (read_string_from_front m buf).0)
    reply_with m pool chunk reply after

  -- What `sendJson` makes of the reply to a request.
  unfoldable pub accept_reply : J → J
  accept_reply payload =
      if json.is_object payload && json.is_number_integer (field json payload error)
      then payload
      else number_object json error (rpc_error_code network_issue)

  unfoldable pub reply_payload : Memory → ErrorCode → Option Buffer → Option J
  reply_payload m err buf =
      if failed err
      then some (number_object json error (rpc_error_code network_issue))
      else elim buf [
        | none ↦ none
        | some b ↦ some (accept_reply (json.parse (read_string_from_front m b).0))
      ]

  -- The callback of `sendJson`, with the control blocks that there are: it frees the buffer of the
  -- request, and gives `onReply` a value.
  unfoldable pub on_json_reply :
      {Endpoint Callback : Type 0}
      → Memory
      → Pool.Pool
      → List (ℕ × ControlBlock Endpoint Callback)
      → ErrorCode
      → Option Buffer
      → Option ℕ
      → Option (J × Pool.Pool)
  on_json_reply m pool controls err buf control = do
    c ← control
    b ← HashMap.find c controls
    payload ← reply_payload m err buf
    some (payload, Pool.free pool b.buffer)

  -- The values that the callback of `connect` gets: an error, a key and a vector.
  unfoldable pub connect_result : J → Option (ℕ × List ℕ × List ℕ)
  connect_result payload =
      if json.is_string (field json payload key) && json.is_string (field json payload iv)
      then (do
        err ← json.get_uint8 (field json payload error)
        new_key ← json.get_string (field json payload key)
        new_iv ← json.get_string (field json payload iv)
        some (err, new_key, new_iv))
      else some (rpc_error_code invalid_input, [], [])

  -- And those of `ping` and `disconnect`.
  unfoldable pub error_result : J → Option ℕ
  error_result payload = json.get_uint8 (field json payload error)

  module _ {State Endpoint Caller : Type 0} (cipher : Cipher State)
      (endpoint_less : Endpoint → Endpoint → Bool) where
    -- `sendJson(to, payload, onReply)`, with the addresses of a chunk of buffers and of the new
    -- control block.
    unfoldable pub send_json :
        Rpc State Endpoint (OnComplete Caller)
        → Pool.Pool
        → ℕ
        → ℕ
        → Endpoint
        → J
        → OnReply Caller
        → Option (Rpc State Endpoint (OnComplete Caller) × Pool.Pool)
    send_json rpc pool chunk control to payload on_reply = do
      (written, buf, rest) ← write_json rpc.memory pool chunk payload
      sent ←
          send cipher endpoint_less (record rpc { memory = written }) control to buf
            (some (reads_reply on_reply))
      some (sent, rest)

    unfoldable pub call_connect :
        Rpc State Endpoint (OnComplete Caller)
        → Pool.Pool
        → ℕ
        → ℕ
        → Endpoint
        → List ℕ
        → List ℕ
        → Caller
        → Option (Rpc State Endpoint (OnComplete Caller) × Pool.Pool)
    call_connect rpc pool chunk control to user secret callback =
        send_json rpc pool chunk control to
          (call_object json type_name (rpc_type_code connect) username user password secret)
          (to_connect callback)

    -- `ping` and `disconnect`.
    unfoldable pub call_type :
        RpcType
        → Rpc State Endpoint (OnComplete Caller)
        → Pool.Pool
        → ℕ
        → ℕ
        → Endpoint
        → Caller
        → Option (Rpc State Endpoint (OnComplete Caller) × Pool.Pool)
    call_type rpc_type rpc pool chunk control to callback =
        send_json rpc pool chunk control to (number_object json type_name (rpc_type_code rpc_type))
          (to_error callback)
