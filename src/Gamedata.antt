-- ===== src/Gamedata.antt =====
-- utils/gamedata: the tables of the game, the update of their files, and the file of versions.
pub mod Pool
pub mod Deadlock
pub mod Progress
pub mod Complete
pub mod Version
pub mod Save
pub mod Tables
mod Tests
