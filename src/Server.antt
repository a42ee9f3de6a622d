-- ===== src/Server.antt =====
-- `class TunnelServer` of server/TunnelServer.h and server/TunnelServer.cc: its state, the handlers
-- of remote calls, and the handlers of packets. An IP address is its 32-bit number.
pub mod State
pub mod Login
pub mod Forward
pub mod Receive
pub mod Table
pub mod Runs
