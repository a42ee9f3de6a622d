-- ===== src/Protocol.antt =====
-- libtun/include/libtun/protocol: headers read and written in place.
pub mod Number
pub mod Checksum
pub mod Ip4
pub mod Tcp
pub mod Udp
