-- ===== src/Logging.antt =====
-- internal/logging: the logger of the FUSE callbacks, and the logger of everything else.
pub mod FuseLogger
pub mod FileLogger
