-- ===== src/Transmission/RpcProtocol/Requests.antt =====
-- Requests that throw.
use zn_tunnel.Prelude.{ℕ, ◌≤◌, ◌≡◌, refl, none, some, arith, Option-cases, true, ◌⊎◌, inl, inr}
use zn_tunnel.Memory.{Memory}
use zn_tunnel.Buffer.{Buffer, read_string_from_front}
use zn_tunnel.Pool.{Pool}
use zn_tunnel.Transmission.Constant.{connect, rpc_type_code}
use zn_tunnel.Transmission.Json.{Json, field, type_name, username, password}
use zn_tunnel.Transmission.RpcProtocol.{
  Handlers, new_handlers, answer_connect, answer_error, answer_type, answer_payload,
  request_handler,
}

module _ {J : Type 0} (json : Json J) where
  -- An object with a number for its type.
  pub record IsCall (payload : J) (rpc_type : ℕ) : Type 0 where
    pub object : json.is_object payload ≡ true
    pub number : json.is_number_integer (field json payload type_name) ≡ true
    pub type : json.get_uint8 (field json payload type_name) ≡ some rpc_type

  answer_payload_call :
      {World Endpoint : Type 0} (handlers : Handlers World Endpoint) (world : World)
      (from : Endpoint) (payload : J) (rpc_type : ℕ)
      → IsCall payload rpc_type
      → answer_payload json handlers world from payload
        ≡ answer_type json handlers world from payload rpc_type
  unfolding answer_payload
  answer_payload_call handlers world from payload rpc_type call =
      rw (call.object, call.number, call.type) refl

  answer_connect_throws :
      {World Endpoint : Type 0} (handlers : Handlers World Endpoint) (world : World)
      (from : Endpoint) (payload : J)
      → (json.get_string (field json payload username) ≡ none)
        ⊎ (json.get_string (field json payload password) ≡ none)
      → answer_connect json handlers world from payload ≡ none
  unfolding answer_connect
  answer_connect_throws handlers world from payload missing =
      elim (Option-cases handlers.on_connect) [
        | inl empty ↦ rw empty refl
        | inr (connects, set) ↦
            elim (Option-cases (json.get_string (field json payload username))) [
              | inl none_name ↦ rw (set, none_name) refl
              | inr (user, name) ↦
                  let no_password : json.get_string (field json payload password) ≡ none =
                    ground (arith, missing, name) in
                  rw (set, name, no_password) refl
            ]
      ]

  new_type_throws :
      {World Endpoint : Type 0} (world : World) (from : Endpoint) (payload : J) (rpc_type : ℕ)
      → rpc_type ≤ 2
      → answer_type json
          (new_handlers {World = World} {Endpoint = Endpoint})
          world
          from
          payload
          rpc_type
        ≡ none
  unfolding answer_type answer_connect answer_error new_handlers rpc_type_code
  new_type_throws world from payload rpc_type small = ground (arith, small)

  -- A call of one of the three types throws where no callback is set, as the constructor leaves it.
  pub new_handlers_throw :
      {World Endpoint Caller : Type 0} (world : World) (m : Memory) (pool : Pool) (chunk : ℕ)
      (buf : Buffer) (from : Endpoint) (rpc_type : ℕ)
      → IsCall (json.parse (read_string_from_front m buf).0) rpc_type
      → rpc_type ≤ 2
      → request_handler json {Caller = Caller} new_handlers world m pool chunk buf from ≡ none
  unfolding request_handler
  new_handlers_throw world m pool chunk buf from rpc_type call small =
      rw
        (
          answer_payload_call new_handlers world from _ rpc_type call,
          new_type_throws world from (json.parse (read_string_from_front m buf).0) rpc_type small,
        )
        refl

  -- A call to connect throws, whatever the callbacks are, where the name or the password is no string.
  pub connect_throws :
      {World Endpoint Caller : Type 0} (handlers : Handlers World Endpoint) (world : World)
      (m : Memory) (pool : Pool) (chunk : ℕ) (buf : Buffer) (from : Endpoint)
      → IsCall (json.parse (read_string_from_front m buf).0) (rpc_type_code connect)
      → (json.get_string (field json (json.parse (read_string_from_front m buf).0) username) ≡ none)
        ⊎ (json.get_string (field json (json.parse (read_string_from_front m buf).0) password)
            ≡ none)
      → request_handler json {Caller = Caller} handlers world m pool chunk buf from ≡ none
  unfolding request_handler answer_type rpc_type_code
  connect_throws handlers world m pool chunk buf from call missing =
      rw (answer_payload_call handlers world from _ (rpc_type_code connect) call)
        (rw (answer_connect_throws handlers world from _ missing) refl)
