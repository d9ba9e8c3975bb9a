-- ===== src/Filters.antt =====
-- proxy/filters/filters.go: the pattern of the host filter.
pub mod Pattern
