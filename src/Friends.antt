-- ===== src/Friends.antt =====
-- The friends: the cache of what is known of them, and the messages that change it.
pub mod Defs
pub mod Updates
pub mod Tracking
pub mod Messages
pub mod Relations
pub mod Presence
pub mod Rounds
pub mod Status
pub mod Persona
pub mod Translations
pub mod Listing
pub mod Listed
pub mod Context
mod Tests
