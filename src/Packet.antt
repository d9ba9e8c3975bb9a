-- ===== src/Packet.antt =====
-- proxy/dispatch.go and proxy/packetHook.go: the hooks of one user and the dispatch of packets.
pub mod Hook
pub mod Dispatch
pub mod Order
pub mod Removal
pub mod Chain
pub mod Shared
pub mod Range
pub mod Return
pub mod Sorting
mod Tests
