-- ===== src/Fetcher/Stores.antt =====
-- internal/fetcher/store.go: which backing store is made, and the options that it gets by default.
use fuse_stream_mvp.Base.{ℕ, [], ◌∷◌, if◌then◌else◌}
use fuse_stream_mvp.Base.Maps.{Text, text_beq}

pub data FetchMode : Type 0 where
  mode_temp_file mode_range_lru : FetchMode

-- "temp-file"
abbrev pub temp_file_name : Text
temp_file_name = b't' ∷ b'e' ∷ b'm' ∷ b'p' ∷ b'-' ∷ b'f' ∷ b'i' ∷ b'l' ∷ b'e' ∷ []

-- The switch of NewBackingStore: any other text means ranges.
unfoldable pub new_backing_store : Text → FetchMode
new_backing_store mode = if text_beq mode temp_file_name then mode_temp_file else mode_range_lru

pub record StoreOptions : Type 0 where
  pub mode : FetchMode
  pub temp_dir : Text
  pub chunk_size : ℕ
  pub max_concurrent_requests : ℕ
  pub cache_size : ℕ

abbrev pub default_store_options : StoreOptions
default_store_options = record {
  mode = mode_range_lru;
  temp_dir = [];
  chunk_size = 4194304;
  max_concurrent_requests = 4;
  cache_size = 8;
}
