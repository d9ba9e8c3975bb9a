-- ===== src/Walk.antt =====
-- proxy/gamestate/scanner.go: `WalkAndNotify`.
pub mod Notify
pub mod Tell
pub mod Loop
mod Keys
pub mod Verdict
pub mod Paths
pub mod KeyText
pub mod Fresh
pub mod Delivery
mod Tests
mod Samples
