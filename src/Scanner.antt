-- ===== src/Scanner.antt =====
-- proxy/gamestate/scanner.go: the JSON scanner.
pub mod State
pub mod Step
pub mod Run
pub mod Grammar
pub mod Config
pub mod Residual
pub mod Delegate
pub mod Invariant
pub mod Sound
pub mod Carry
pub mod Complete
pub mod Language
pub mod Text
mod Tests
