-- ===== src/Caches.antt =====
-- The small caches: of the servers, of the achievements, and of the id of the machine.
pub mod Servers
pub mod Written
pub mod Entries
pub mod Kept
pub mod Machine
mod Tests
