-- ===== src/Api.antt =====
-- internal/api: the client of the media service.
pub mod TokenCache
pub mod Json
pub mod Jobs
pub mod Downloads
