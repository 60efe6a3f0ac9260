-- ===== src/Imports.antt =====
-- The imports that Galaxy asks for game by game: statistics with achievements, and play times.
pub mod Defs
pub mod Completion
pub mod Jobs
pub mod Achievements
pub mod Earned
pub mod Collections
pub mod Settings
pub mod Prepare
pub mod AnyOrder
mod Tests
