-- ===== src/Server/Receive.antt =====
-- `start` and `_onSocketReceive` of server/TunnelServer.cc. The handler of requests is an argument,
-- as it is of `feed`: what `RpcProtocol` does, Transmission.RpcProtocol has. Its callbacks take and
-- give back buffers of the server's own pool, and may throw; so what they leave of the pool is an
-- argument too, `none` where one throws.
pub mod Laws
use mathlib.Core.Option
use zn_tunnel.Prelude.{
  ◌>>=◌, ℕ, Bool, true, false, ◌||◌, List, [], ◌∷◌, ◌++◌, Option, none, some, if◌then◌else◌, ◌==◌,
  pos, u32,
}
use zn_tunnel.Memory.{Memory}
use zn_tunnel.Buffer.{Buffer, move_front_boundary, resize}
use zn_tunnel.Pool
use zn_tunnel.Pool.{Pool}
use zn_tunnel.Containers.Order.{Eq}
use zn_tunnel.Transmission.Constant.{command_code, transmit, request, reply}
use zn_tunnel.Transmission.Cryptor.{Cipher}
use zn_tunnel.Transmission.Rpc.State.{ErrorCode, failed, Answer}
use zn_tunnel.Transmission.Rpc.Handler.{feed}
use zn_tunnel.Server.State.{TunnelServer, Request, receives_into}
use zn_tunnel.Server.Forward.{process_transmit}

module _ {State Endpoint Callback : Type 0} where
  -- A buffer of the pool to receive into. The address of a new chunk of buffers is an argument.
  unfoldable pub start_receive :
      TunnelServer State Endpoint Callback → ℕ → Option (TunnelServer State Endpoint Callback)
  unfolding Pool.alloc move_front_boundary
  start_receive server chunk = do
    (block, pool) ← Pool.alloc 1600 server.pool chunk
    some (record server {
      pool = pool;
      requests = server.requests ++ receives_into (move_front_boundary block (pos 50)) ∷ [];
    })

module _ {State Endpoint Callback : Type 0} (cipher : Cipher State) ⦃e : Eq Endpoint⦄
    (endpoint_less : Endpoint → Endpoint → Bool)
    (on_request : Memory → Buffer → Endpoint → ℕ → Answer Callback) where
  -- What a datagram is given to. The address of a new control block is an argument, and what the
  -- callbacks that `feed` makes leave of the pool.
  unfoldable pub dispatch_datagram :
      TunnelServer State Endpoint Callback
      → ℕ
      → ℕ
      → ℕ
      → Option Pool
      → Buffer
      → Option (TunnelServer State Endpoint Callback)
  unfolding process_transmit feed command_code
  dispatch_datagram server command now control callback_pool buf =
      if command == command_code transmit
      then process_transmit cipher server now buf
      else if command == command_code reply || command == command_code request
      then elim (feed cipher endpoint_less on_request server.rpc control server.receive_ep buf) [
        | none ↦ none
        | some rpc ↦ Option.map (λ pool. record server { rpc = rpc; pool = pool }) callback_pool
      ]
      else some server

  -- `_onSocketReceive(err, transfered, buf)`, with the time, the addresses of a new control
  -- block and of a new chunk of buffers, and the pool after the callbacks.
  unfoldable pub on_socket_receive :
      TunnelServer State Endpoint Callback
      → ErrorCode
      → ℕ
      → Buffer
      → ℕ
      → ℕ
      → Option Pool
      → ℕ
      → Option (TunnelServer State Endpoint Callback)
  unfolding failed resize move_front_boundary dispatch_datagram start_receive Pool.free
  on_socket_receive server err transfered buf now control callback_pool chunk =
      let data_buf = move_front_boundary (resize buf (u32 transfered)) (pos 1) in
      let command = server.rpc.memory buf.start in
      if failed err then some (record server { pool = Pool.free server.pool buf }) else do
        handled ← dispatch_datagram server command now control callback_pool data_buf
        start_receive (record handled { pool = Pool.free handled.pool data_buf }) chunk
