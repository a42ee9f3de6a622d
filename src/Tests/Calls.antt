-- ===== src/Tests/Calls.antt =====
-- RpcProtocol.h: a call to connect, from the request to what the client is called back with.
use zn_tunnel.Prelude.{ℕ, ◌+◌, ◌≡◌, refl, inl, [], ◌∷◌, List, none, some, ◌>>=◌, ltb, length, arith}
use zn_tunnel.Memory.{Memory, store16, store, store_list, load_list, load16}
use zn_tunnel.Memory.Laws.{IsBytes, store-IsBytes, store_list-IsBytes}
use zn_tunnel.Buffer.{Buffer, read_string_from_front}
use zn_tunnel.Pool.{Pool, alloc}
use zn_tunnel.Pool.Ownership.{IsPool}
use zn_tunnel.Transmission.Constant.{success, rpc_type_code, rpc_error_code}
use zn_tunnel.Transmission.Json.{
  call_object, type_name, username, password, error, key, iv, name_bytes,
}
use zn_tunnel.Transmission.Rpc.State.{Rpc, no_error, timed_out, answered, failed}
use zn_tunnel.Transmission.RpcProtocol.{
  Handlers, new_handlers, frees_buffer, request_handler, reply_payload, connect_result, OnComplete,
  to_error, send_json, on_json_reply,
}
use zn_tunnel.Transmission.RpcProtocol.Login.{Login, reply_at, request_handler-connect_result}
use zn_tunnel.Transmission.RpcProtocol.Requests.{IsCall, new_handlers_throw}
use zn_tunnel.Transmission.RpcProtocol.Ownership.{send_json-on_json_reply}
use zn_tunnel.Config.Order.{string_same, string_less}
use zn_tunnel.Tests.Buffers.{blank}
use zn_tunnel.Tests.Pools.{one_lent, one_lent-IsPool}
use zn_tunnel.Tests.Ciphers.{Shift, shifting, cryptor}
use zn_tunnel.Tests.Json.{
  plain_json, plain_json-IsJson, pack, find_member, is_kind, number_of, seek, take_value,
}

abbrev request_text : List ℕ
request_text = call_object plain_json type_name 0 username (122 ∷ []) password (52 ∷ [])

abbrev reply_text : List ℕ
reply_text = call_object plain_json error 0 key (1 ∷ 2 ∷ []) iv (3 ∷ [])

abbrev request_buffer : Buffer
request_buffer = record { internal = 8192; internal_size = 1600; start = 8202; size = 100 }

abbrev with_text : List ℕ → Memory
with_text text = store_list (store16 blank 8202 (length text)) 8204 text

with_text-IsBytes : (text : List ℕ) → IsBytes (with_text text)
unfolding store16
with_text-IsBytes text =
    store_list-IsBytes _ 8204 text
      (store-IsBytes _ 8203 _ (store-IsBytes blank 8202 _ (λ x. omega arith)))

abbrev handlers : Handlers ℕ ℕ
handlers = record {
  on_connect = some (λ world from user secret. some ((success, 1 ∷ 2 ∷ [], 3 ∷ []), world + 1));
  on_ping = none;
  on_disconnect = none;
}

abbrev rest : Pool
rest = record one_lent { available = [] }

login :
    Login plain_json handlers 6 7 77
      (with_text request_text)
      request_buffer
      one_lent
      rest
      0
      65536
      (122 ∷ [])
      (52 ∷ [])
      request_text
      success
      (1 ∷ 2 ∷ [])
      (3 ∷ [])
      reply_text
unfolding name_bytes rpc_type_code read_string_from_front load_list load16 store_list pack store
    store16 alloc rpc_error_code
login = record {
  connects = λ world from user secret. some ((success, 1 ∷ 2 ∷ [], 3 ∷ []), world + 1);
  set = refl;
  result = refl;
  dumped = refl;
  received = refl;
  given = refl;
  mapped = omega arith;
  replied = refl;
  text = omega arith;
  bytes = with_text-IsBytes request_text;
}

request_handler-connect_result_example :
    let w = reply_at (with_text request_text) 65536 reply_text in
    (request_handler plain_json {Caller = ℕ} handlers 6
        (with_text request_text)
        one_lent
        0
        request_buffer
        77
      ≡ some (answered w.memory w.buffer (some frees_buffer), rest, 7))
    × ((reply_payload plain_json w.memory no_error (some w.buffer) >>= connect_result plain_json)
        ≡ some (rpc_error_code success, 1 ∷ 2 ∷ [], 3 ∷ []))
request_handler-connect_result_example =
    let w = reply_at (with_text request_text) 65536 reply_text in
    request_handler-connect_result plain_json plain_json-IsJson {Caller = ℕ} handlers 6 7 77
      (with_text request_text) w.memory request_buffer w.buffer one_lent rest 0 65536 (122 ∷ [])
      (52 ∷ []) request_text success (1 ∷ 2 ∷ []) (3 ∷ []) reply_text login refl refl

request-IsCall :
    IsCall plain_json
      (plain_json.parse (read_string_from_front (with_text request_text) request_buffer).0)
      0
unfolding name_bytes read_string_from_front load_list load16 store_list pack store store16 is_kind
    find_member seek take_value number_of string_same string_less rpc_type_code
request-IsCall = record { object = refl; number = refl; type = refl }

new_handlers_throw_example :
    request_handler plain_json {Caller = ℕ}
      (new_handlers {World = ℕ} {Endpoint = ℕ})
      6
      (with_text request_text)
      one_lent
      0
      request_buffer
      77
    ≡ none
new_handlers_throw_example =
    new_handlers_throw plain_json 6 (with_text request_text) one_lent 0 request_buffer 77 0
      request-IsCall (omega arith)

abbrev calls : Rpc Shift ℕ (OnComplete ℕ)
calls = record {
  next = 5;
  retry = 10;
  cryptor = cryptor;
  memory = blank;
  controls = [];
  replying = [];
  requesting = [];
  pending = [];
  outputs = [];
}

send_json-on_json_reply_example :
    (sent : Rpc Shift ℕ (OnComplete ℕ)) × (answer : List ℕ) × (after : Pool) × (send_json plain_json
        shifting ltb calls one_lent 0 9000 77
        (2 ∷ 1 ∷ [])
        (to_error 4)
      ≡ some (sent, rest))
    × IsPool 1600 rest (65536 ∷ 67136 ∷ [])
    × (on_json_reply plain_json blank rest sent.controls timed_out none (some 9000)
        ≡ some (answer, after))
    × IsPool 1600 after (67136 ∷ [])
unfolding failed alloc
send_json-on_json_reply_example =
    send_json-on_json_reply plain_json shifting ltb calls one_lent rest (67136 ∷ []) 0 65536 9000 77
      (2 ∷ 1 ∷ []) (2 ∷ 1 ∷ []) (to_error 4) blank timed_out none one_lent-IsPool
      (λ e. absurd (ground arith)) refl (omega arith) refl (omega arith) (omega arith) (inl refl)
