-- ===== src/Scanner/Invariant.antt =====
-- What a step and a run of the scanner keep.
pub mod Step
pub mod Runs
