-- ===== src/Backend.antt =====
-- The backend: what it tells Galaxy at its ticks, and what it keeps for the next start.
pub mod Defs
pub mod Told
pub mod Sent
pub mod Reached
pub mod Restart
mod Tests
