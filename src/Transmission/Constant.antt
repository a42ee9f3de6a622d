-- ===== src/Transmission/Constant.antt =====
-- libtun/include/libtun/transmission/constant.h: the enumerations, and the bytes that stand for them.
use zn_tunnel.Prelude.{ℕ}

pub data Command : Type 0 where
  request reply transmit : Command

unfoldable pub command_code : Command → ℕ
command_code request = 0
command_code reply = 1
command_code transmit = 2

pub data RpcType : Type 0 where
  connect ping disconnect : RpcType

unfoldable pub rpc_type_code : RpcType → ℕ
rpc_type_code connect = 0
rpc_type_code ping = 1
rpc_type_code disconnect = 2

pub data RpcErrorType : Type 0 where
  success invalid_input wrong_credential too_many_connection not_connected network_issue :
      RpcErrorType

unfoldable pub rpc_error_code : RpcErrorType → ℕ
rpc_error_code success = 0
rpc_error_code invalid_input = 1
rpc_error_code wrong_credential = 2
rpc_error_code too_many_connection = 3
rpc_error_code not_connected = 4
rpc_error_code network_issue = 5

pub data SessionStatus : Type 0 where
  idle connected disconnected error : SessionStatus
