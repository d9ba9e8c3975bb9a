-- ===== src/Certs.antt =====
-- proxy/certstore.go: the certificates of the hosts, kept in a cache.
pub mod Store
pub mod Fetches
mod Tests
