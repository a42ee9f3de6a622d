-- ===== src/Tests.antt =====
-- Runs of the definitions, and the theorems at concrete inputs.
mod Buffers
mod Pools
mod Protocols
mod Napts
mod Ciphers
mod Transmissions
mod Servers
mod Forwarding
mod Runs
mod Configs
mod Json
mod Calls
mod Devices
