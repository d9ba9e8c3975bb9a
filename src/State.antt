-- ===== src/State.antt =====
-- proxy/gamestate/gamestate.go and gamestate_hook.go: the mirrored state of one user, its lock, the
-- goroutines that write it, and its hooks.
pub mod Store
pub mod Steps
pub mod Phase
pub mod Invariant
pub mod Queue
pub mod Calls
pub mod Unhook
pub mod Reference
pub mod Mirror
pub mod Race
pub mod Sample
mod Tests
