-- ===== src/Wire.antt =====
-- The wire protocol of src/steam_network/protocol: packets, bundles of packets, and Steam ids.
pub mod Bytes
pub mod EMsg
pub mod Packet
pub mod Multi
pub mod SteamId
pub mod Receive
pub mod Requests
pub mod Session
mod Tests
