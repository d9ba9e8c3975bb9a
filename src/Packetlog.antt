-- ===== src/Packetlog.antt =====
-- mods/packetlogger/packetLogger.go: the log of all packets of a user.
pub mod Logger
pub mod Lines
mod Tests
