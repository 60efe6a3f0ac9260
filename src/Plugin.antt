-- ===== src/Plugin.antt =====
-- The plugin that Galaxy runs: its tick and tasks, local games, and what it passes to the backend.
pub mod Defs
pub mod Mirror
pub mod Ticks
pub mod Manifest
pub mod Size
pub mod Client
pub mod Offers
mod Tests
