-- ===== src/Platform.antt =====
-- internal/sleep and internal/appnap, what the program asks of macOS while it works; pkg/config, its
-- settings.
pub mod Sleep
pub mod AppNap
pub mod Config
