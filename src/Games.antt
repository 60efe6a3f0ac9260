-- ===== src/Games.antt =====
-- The library of games: src/steam_network/games_cache.py, and the import of licenses that
-- src/steam_network/protocol/protobuf_client.py and src/steam_network/protocol_client.py drive.
pub mod Defs
pub mod Balance
pub mod Faults
pub mod Import
pub mod Owned
mod Tests
pub mod Library
