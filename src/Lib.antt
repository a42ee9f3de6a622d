-- ===== src/Lib.antt =====
-- zn-tunnel: a tunnel over UDP with a server that translates addresses. A client sends IP packets,
-- encrypted, in datagrams; the server gives each connection a port of its own, writes the packet to
-- a raw socket, and sends what comes back to the client that the port belongs to. Clients log in by
-- remote calls over the same socket.
--
-- The parts, each with the files that model it:
--   Prelude            numbers that wrap at 8, 16, 32 and 64 bits, lists, tests, a bind for options
--   Memory             the bytes that raw pointers reach, read and written by value
--   Buffer             class Buffer, libtun/include/libtun/BufferPool.h
--   Pool               class BufferPool of the same file
--   Protocol           Ip4, Tcp and Udp, libtun/include/libtun/protocol: headers in place, checksums
--   Containers         std::unordered_map and std::map, with the comparison that the code gives them
--   Napt               class NAPT, libtun/include/libtun/napt.h
--   Config             class ParseConfig, libtun/include/libtun/impl/parser/ParseConfig.cc
--   Transmission       libtun/include/libtun/transmission: constant.h, Cryptor.h, Rpc.h, Session.h,
--                      and RpcProtocol.h over an abstract JSON library
--   RawSocket          classes RawSocket and RawSocketImpl, libtun/include/libtun/RawSocket.h and
--                      libtun/include/libtun/impl/RawSocket/RawSocket_darwin.h
--   Tunnel             classes Tunnel and TunnelImpl, libtun/include/libtun/Tunnel.h and
--                      libtun/include/libtun/impl/Tunnel/Tunnel_darwin.h
--   Server             class TunnelServer, server/TunnelServer.h and server/TunnelServer.cc; Server.Runs
--                      has its handlers in any order, Server.Table what the sessions are to be
--                      after logins, logouts and removals
--   Tests              runs of the definitions, and the theorems at concrete inputs
--
-- How they interact: Server.Receive takes a datagram out of a buffer of the Pool and gives it to
-- Rpc's feed or to Server.Forward, which asks the session (Transmission.Session) and its cryptor,
-- the tables of connections (Napt) and the headers (Protocol). All of them share one memory, which
-- is that of the remote calls' state. RpcProtocol takes the buffers of its calls from the same pool,
-- and its handler of requests calls the server's. RawSocket.Consume hands the packets of the net on to
-- a callback, which is the server's handler of raw packets.
--
-- Conventions. A record stands for a class, with its fields in the source's words; a method is a
-- function that takes the object, and the memory where it reads or writes any, and returns what it
-- changes. A pointer is an address. `none` is what C++ leaves undefined or throws (an empty
-- std::function, an index out of range, a null connection that is used, a position or a count that
-- an `int` does not reach, a size that wraps, a store to an address that is not mapped), or fuel
-- that ran out; a
-- null pointer that the code tests for is an inner `none`. Addresses of new chunks and control
-- blocks, the time and random bytes are arguments of the operation that asks for them. Sending and
-- receiving is a list of what was asked of the sockets; the operations under way of the remote
-- calls are a list, and each completion is a step of its own.
--
-- Fuel: the carry loop of a checksum runs at most 3 rounds on any 32-bit sum. The loop over ports
-- needs one round more than there are ports in the range, and the server gives it 65537; where the
-- range ends at 65535 and all ports are taken, the loop of the source does not end. The loop over the
-- frames of a read needs at most one round more than the read has bytes.
--
-- Parameters: Crypto++'s CFB mode is a `Cipher`, with what it documents as `IsCipher`; the order and
-- the equality of UDP endpoints; the handler of requests that feed calls; nlohmann::json is a `Json`,
-- with what it documents as `IsJson`; the fields of a bpf_hdr and BPF_WORDALIGN are a `BpfHeader`; the
-- results of system calls are arguments.
--
-- Not modelled: logging, exceptions as objects, and the main programs, which only set up and start
-- the parts; of the raw socket and the tunnel device what the system calls do. The handler of requests
-- that Server.Receive takes is an argument, and so is what the callbacks leave of the pool, with
-- `none` where one throws; in Server.Runs the calls that it makes are steps of their own, and what
-- Rpc's timers, the sockets and the pool do to their own parts of the state between two handlers is
-- any change of these parts.
pub mod Prelude
pub mod Memory
pub mod Buffer
pub mod Pool
pub mod Protocol
pub mod Containers
pub mod Config
pub mod Napt
pub mod Transmission
pub mod RawSocket
pub mod Tunnel
pub mod Server
mod Tests
