-- ===== src/Fetcher.antt =====
-- internal/fetcher: the backing stores of remote files.
pub mod RangeLru
pub mod TempFiles
pub mod Stores
pub mod TempStore
pub mod Legacy
