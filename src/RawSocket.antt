-- ===== src/RawSocket.antt =====
-- The raw socket: class RawSocket of libtun/include/libtun/RawSocket.h and class RawSocketImpl of
-- libtun/include/libtun/impl/RawSocket/RawSocket_darwin.h. The results of system calls are arguments.
pub mod Interfaces
pub mod Device
pub mod Consume
pub mod Frames
pub mod Reader
