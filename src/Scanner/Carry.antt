-- ===== src/Scanner/Carry.antt =====
-- Runs of the scanner through the phrases of the grammar, for whatever the steps carry along.
pub mod Moves
pub mod Opens
pub mod Text
pub mod Number
pub mod Ends
