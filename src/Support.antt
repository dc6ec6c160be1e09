-- ===== src/Support.antt =====
-- What the parts of the tracker share: shutting down a group (pkg/stop), the cached clock
-- (pkg/timecache) and the registries of drivers (middleware/middleware.go, storage/storage.go).
pub mod Stops
pub mod Clocks
pub mod Registries
