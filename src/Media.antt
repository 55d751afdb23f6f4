-- ===== src/Media.antt =====
-- internal/media/catalog.go: albums, their media, scans, uploads, backups and mirror deletion.
-- Each method is a function of the database and of the storage that the providers reach; the
-- clock is an argument, read once for a call.
pub mod Types
pub mod Names
pub mod Index
pub mod Mirror
pub mod Scan
pub mod Open
pub mod Transfer
pub mod Work
pub mod Albums
pub mod Tests
