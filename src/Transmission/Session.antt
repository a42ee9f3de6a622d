-- ===== src/Transmission/Session.antt =====
-- `class Session` of libtun/include/libtun/transmission/Session.h. The time is an argument of what
-- reads the clock, and the random key and vector of `Cryptor()` are arguments of `reset`.
use zn_tunnel.Prelude.{ℕ, ◌+◌, ◌-◌, ◌^◌, Bool, true, false, List, ℤ, pos_part, neg_part, u16, u64}
use zn_tunnel.Transmission.Constant.{SessionStatus, connected, idle, RpcErrorType, success}
use zn_tunnel.Transmission.Cryptor.{Cipher, Cryptor, new_cryptor}

pub record Session (State Endpoint : Type 0) : Type 0 where
  pub cryptor : Cryptor State
  pub endpoint : Endpoint
  pub client_id : ℕ
  pub last_active_at : ℕ
  pub transmitted_bytes : ℕ
  pub status : SessionStatus
  pub error : RpcErrorType

unfoldable pub status_connected : SessionStatus → Bool
status_connected connected = true
status_connected _ = false

unfoldable pub status_idle : SessionStatus → Bool
status_idle idle = true
status_idle _ = false

module _ {State Endpoint : Type 0} where
  -- `Session()`: a session that nothing was done with. The members that it leaves without a value
  -- are arguments.
  unfoldable pub new_session :
      Cryptor State → Endpoint → ℕ → ℕ → RpcErrorType → Session State Endpoint
  new_session cryptor endpoint client_id now error = record {
    cryptor = cryptor;
    endpoint = endpoint;
    client_id = client_id;
    last_active_at = now;
    transmitted_bytes = 0;
    status = idle;
    error = error;
  }

  unfoldable pub is_connected : Session State Endpoint → Bool
  unfolding status_connected
  is_connected s = status_connected s.status

  unfoldable pub is_idle : Session State Endpoint → Bool
  unfolding status_idle
  is_idle s = status_idle s.status

  -- `len` is an `int`, converted to `uint64_t`.
  unfoldable pub update_transmit : Session State Endpoint → ℕ → ℤ → Session State Endpoint
  update_transmit s now len = record s {
    last_active_at = now;
    transmitted_bytes = u64 (s.transmitted_bytes + pos_part len + 2 ^ 64 - neg_part len);
  }

  unfoldable pub reset :
      Cipher State
      → Session State Endpoint
      → ℕ
      → Endpoint
      → ℕ
      → List ℕ
      → List ℕ
      → Session State Endpoint
  unfolding new_cryptor
  reset cipher s id from now key iv = record {
    client_id = u16 id;
    cryptor = new_cryptor cipher key iv;
    endpoint = from;
    last_active_at = now;
    status = connected;
    transmitted_bytes = 0;
    error = success;
  }
