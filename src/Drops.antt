-- ===== src/Drops.antt =====
-- mods/droplogger: the log of the items that a battle drops.
pub mod Logger
pub mod Select
pub mod Runs
mod Tests
