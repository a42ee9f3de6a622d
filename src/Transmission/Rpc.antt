-- ===== src/Transmission/Rpc.antt =====
-- `class Rpc` of libtun/include/libtun/transmission/Rpc.h: requests that are sent until they are
-- answered, and replies that are sent again and again, over UDP.
pub mod State
pub mod Timer
pub mod Handler
pub mod Packet
pub mod Rounds
pub mod Replies
