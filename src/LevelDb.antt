-- ===== src/LevelDb.antt =====
-- The collections of a user, read from the log of the Steam client's database:
-- src/leveldb_parser.py.
pub mod Defs
pub mod Kept
pub mod Fresh
pub mod Static
pub mod Dynamic
pub mod Matches
pub mod Log
pub mod Meta
pub mod Jsons
pub mod Decode
pub mod Total
mod Tests
