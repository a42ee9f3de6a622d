-- ===== src/Transmission/RpcProtocol/Login.antt =====
-- A client that connects: its request, what the other side answers, and what it is called back with.
use zn_tunnel.Prelude.{
  ℕ, ◌+◌, ◌^◌, ◌<◌, ◌≡◌, ◌≢◌, refl, sym, ◌∙◌, List, Option, some, ◌>>=◌, arith, u8,
}
use zn_tunnel.Memory.{Memory, load_list}
use zn_tunnel.Memory.Laws.{IsBytes}
use zn_tunnel.Buffer.{Buffer, Written, new_buffer, read_string_from_front, write_string_to_back}
use zn_tunnel.Buffer.Copy.{read_string_copied}
use zn_tunnel.Pool.{Pool, alloc}
use zn_tunnel.Transmission.Constant.{
  RpcErrorType, rpc_error_code, connect, rpc_type_code, success, invalid_input, wrong_credential,
  too_many_connection, not_connected, network_issue,
}
use zn_tunnel.Transmission.Json.{
  Json, IsJson, Name, name_bytes, field, call_object, type_name, username, password, error, key, iv,
}
use zn_tunnel.Transmission.Rpc.State.{no_error, failed, answered}
use zn_tunnel.Transmission.RpcProtocol.{
  Handlers, frees_buffer, answer_connect, answer_type, answer_payload, reply_with, request_handler,
  accept_reply, reply_payload, connect_result, write_json,
}
use zn_tunnel.Transmission.RpcProtocol.Buffers.{
  IsText, write_text_reads, write_text-IsBytes, empty_block, read_string_first,
}

rpc_error_code-u8 : (err : RpcErrorType) → u8 (rpc_error_code err) ≡ rpc_error_code err
unfolding rpc_error_code
rpc_error_code-u8 success = refl
rpc_error_code-u8 invalid_input = refl
rpc_error_code-u8 wrong_credential = refl
rpc_error_code-u8 too_many_connection = refl
rpc_error_code-u8 not_connected = refl
rpc_error_code-u8 network_issue = refl

module _ {J : Type 0} (json : Json J) (laws : IsJson json) where
  -- The members of the objects that the remote calls make.
  call_members :
      (a : Name) (n : ℕ) (b : Name) (s : List ℕ) (c : Name) (t : List ℕ)
      → name_bytes a ≢ name_bytes b
      → name_bytes a ≢ name_bytes c
      → name_bytes b ≢ name_bytes c
      → let v = call_object json a n b s c t in
        (field json v a ≡ json.of_number n)
        × (field json v b ≡ json.of_string s)
        × (field json v c ≡ json.of_string t)
  call_members a n b s c t ab ac bc = (
    laws.member_first _ _ _,
    laws.member_later _ _ _ _ ab ∙ laws.member_first _ _ _,
    laws.member_later _ _ _ _ ac ∙ laws.member_later _ _ _ _ bc ∙ laws.member_first _ _ _,
  )

  request_members :
      (user secret : List ℕ)
      → let v = call_object json type_name (rpc_type_code connect) username user password secret in
        (field json v type_name ≡ json.of_number (rpc_type_code connect))
        × (field json v username ≡ json.of_string user)
        × (field json v password ≡ json.of_string secret)
  unfolding name_bytes
  request_members user secret =
      call_members type_name _ username user password secret (λ e. ground (arith, e))
        (λ e. ground (arith, e)) (λ e. ground (arith, e))

  reply_members :
      (err : RpcErrorType) (new_key new_iv : List ℕ)
      → let v = call_object json error (rpc_error_code err) key new_key iv new_iv in
        (field json v error ≡ json.of_number (rpc_error_code err))
        × (field json v key ≡ json.of_string new_key)
        × (field json v iv ≡ json.of_string new_iv)
  unfolding name_bytes
  reply_members err new_key new_iv =
      call_members error _ key new_key iv new_iv (λ e. ground (arith, e)) (λ e. ground (arith, e))
        (λ e. ground (arith, e))

  -- The handler's answer to a request to connect, up to the text of the reply.
  answer_payload_connect :
      {World Endpoint : Type 0} (handlers : Handlers World Endpoint) (world after : World)
      (from : Endpoint)
      (connects : World
        → Endpoint
        → List ℕ
        → List ℕ
        → Option ((RpcErrorType × List ℕ × List ℕ) × World))
      (user secret : List ℕ) (err : RpcErrorType) (new_key new_iv : List ℕ)
      → handlers.on_connect ≡ some connects
      → connects world from user secret ≡ some ((err, new_key, new_iv), after)
      → answer_payload json handlers world from
          (call_object json type_name (rpc_type_code connect) username user password secret)
        ≡ some (some (call_object json error (rpc_error_code err) key new_key iv new_iv), after)
  unfolding answer_payload answer_type answer_connect rpc_type_code
  answer_payload_connect handlers world after from connects user secret err new_key new_iv set
        done =
      let (type, name, word) = request_members user secret in
      rw
        (
          laws.object_object _,
          type,
          laws.number_number (rpc_type_code connect),
          laws.uint8_number (rpc_type_code connect),
        )
        (rw (set, name, word, laws.get_string_string user, laws.get_string_string secret, done)
          refl)

  -- What a client takes from a reply to its request to connect.
  connect_result-reply :
      (err : RpcErrorType) (new_key new_iv : List ℕ)
      → let v = call_object json error (rpc_error_code err) key new_key iv new_iv in
        connect_result json (accept_reply json v) ≡ some (rpc_error_code err, new_key, new_iv)
  unfolding connect_result accept_reply
  connect_result-reply err new_key new_iv =
      let (code, k, i) = reply_members err new_key new_iv in
      rw (laws.object_object _, code, laws.number_number (rpc_error_code err))
        (rw (k, i, laws.string_string new_key, laws.string_string new_iv)
          (rw
            (
              code,
              laws.uint8_number (rpc_error_code err),
              rpc_error_code-u8 err,
              laws.get_string_string new_key,
              laws.get_string_string new_iv,
            )
            refl))

-- The buffer of the reply, and the memory with it.
abbrev pub reply_at : Memory → ℕ → List ℕ → Written
reply_at m a text = write_string_to_back m (empty_block a) text

module _ {J : Type 0} (json : Json J) where
  -- A client that connects with a name and a password, the handler of the other side, and the pool
  -- that gives it a block for the reply.
  pub record Login {World Endpoint : Type 0} (handlers : Handlers World Endpoint)
      (world after : World) (from : Endpoint) (m : Memory) (buf : Buffer) (pool rest : Pool)
      (chunk a : ℕ) (user secret request : List ℕ) (err : RpcErrorType)
      (new_key new_iv reply : List ℕ) : Type 0 where
    pub connects :
        World → Endpoint → List ℕ → List ℕ → Option ((RpcErrorType × List ℕ × List ℕ) × World)
    pub set : handlers.on_connect ≡ some connects
    pub result : connects world from user secret ≡ some ((err, new_key, new_iv), after)
    pub dumped :
        json.dump (call_object json type_name (rpc_type_code connect) username user password secret)
        ≡ some request
    pub received : (read_string_from_front m buf).0 ≡ request
    pub given : alloc 1600 pool chunk ≡ some (new_buffer a 1600, rest)
    pub mapped : a + 1600 < 2 ^ 64
    pub replied :
        json.dump (call_object json error (rpc_error_code err) key new_key iv new_iv) ≡ some reply
    pub text : IsText reply
    pub bytes : IsBytes m

module _ {J : Type 0} (json : Json J) (laws : IsJson json) where
  -- A client's request to connect, received whole, is answered with what `onConnect` returns, in a
  -- block of the pool; and the client, from a copy of that reply, is called back with the same error,
  -- key and vector. The texts of both are JSON that the library prints, and the reply's fits.
  pub request_handler-connect_result :
      {World Endpoint Caller : Type 0} (handlers : Handlers World Endpoint) (world after : World)
      (from : Endpoint) (m m' : Memory) (buf got : Buffer) (pool rest : Pool) (chunk a : ℕ)
      (user secret request : List ℕ) (err : RpcErrorType) (new_key new_iv reply : List ℕ)
      → Login json handlers world after from m buf pool rest chunk a user secret request err new_key
          new_iv reply
      → got.size ≡ (reply_at m a reply).buffer.size
      → load_list m' got.start got.size
        ≡ load_list
            (reply_at m a reply).memory
            (reply_at m a reply).buffer.start
            (reply_at m a reply).buffer.size
      → (request_handler json {Caller = Caller} handlers world m pool chunk buf from
          ≡ some (
            answered (reply_at m a reply).memory (reply_at m a reply).buffer (some frees_buffer),
            rest,
            after,
          ))
        × ((reply_payload json m' no_error (some got) >>= connect_result json)
            ≡ some (rpc_error_code err, new_key, new_iv))
  unfolding request_handler reply_with write_json reply_payload failed
  request_handler-connect_result handlers world after from m m' buf got pool rest chunk a user
        secret request err new_key new_iv reply l size copied =
      let parsed = laws.parse_dump _ request l.dumped in
      let answer =
        answer_payload_connect json laws handlers world after from l.connects user secret err
          new_key new_iv l.set l.result in
      let w = reply_at m a reply in
      let text : (read_string_from_front m' got).0 ≡ reply =
        read_string_first m' got
        ∙ read_string_copied w.memory m' w.buffer got
            (write_text-IsBytes m (empty_block a) reply l.bytes) size copied
        ∙ sym (read_string_first w.memory w.buffer)
        ∙ write_text_reads m a reply l.mapped l.text in
      (
        rw (l.received, parsed) (rw answer (rw (l.given, l.replied) refl)),
        rw (text, laws.parse_dump _ reply l.replied)
            (connect_result-reply json laws err new_key new_iv),
      )
