-- ===== src/Authority.antt =====
-- utils/cagen.go, utils/cert.go, and the part of `NewProxy` in proxy/proxy.go that calls them: the
-- certificate authority of the proxy, its two files, and the start.
pub mod Generate
pub mod Load
pub mod Start
pub mod Restart
pub mod Broken
pub mod Round
pub mod Sample
mod Tests
