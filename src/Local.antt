-- ===== src/Local.antt =====
-- The games on this machine, and the folders they are in: src/client.py and the plugin's use of it.
pub mod Defs
pub mod Changes
pub mod Registry
pub mod Folders
pub mod Library
pub mod Manifests
pub mod Tests
