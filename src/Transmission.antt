-- ===== src/Transmission.antt =====
-- libtun/include/libtun/transmission: the encrypted remote calls over UDP.
pub mod Constant
pub mod Cryptor
pub mod Rpc
pub mod Session
pub mod Json
pub mod RpcProtocol
