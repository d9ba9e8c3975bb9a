-- ===== src/Log.antt =====
-- log/log.go: the levelled logger.
pub mod Output
pub mod Appended
pub mod Written
mod Tests
