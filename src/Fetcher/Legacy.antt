-- ===== src/Fetcher/Legacy.antt =====
-- internal/fetcher/fetcher.go: the cache of chunks that the first fetcher keeps, least recently used first.
--
-- A move is one critical section of cacheMu, so that calls of getChunk may run in any order and at the
-- same time: the look into the cache, the store of what was fetched, and Close.
pub mod Recency
use fuse_stream_mvp.Base.{
  ℕ, zero, suc, ◌+◌, ◌-◌, ◌*◌, ◌/◌, Bool, true, false, Option, none, some, List, [], ◌∷◌, ◌++◌, ltb,
  leb, ◌==◌, if◌then◌else◌, length, erase, contains,
}
use fuse_stream_mvp.Base.Maps.{Map, Text, text_beq, get, put, delete, nat_eq}
use fuse_stream_mvp.Base.Words.{ℤ, is_nonpos, to_ℕ}

abbrev pub chunk_size : ℕ
chunk_size = 4194304

abbrev pub max_readahead : ℕ
max_readahead = 67108864

abbrev pub cache_size : ℕ
cache_size = 8

pub data FetchError : Type 0 where
  ctx_done failed_after_retries : FetchError

pub record Chunk : Type 0 where
  pub bytes : List ℕ
  pub err : Option FetchError

pub record Fetcher : Type 0 where
  pub size : ℕ
  pub cache : Map ℕ Chunk
  pub lru_order : List ℕ

pub record Head : Type 0 where
  pub status : ℕ
  pub accept_ranges : Text

pub data Created : Type 0 where
  created : Fetcher → Created
  invalid_file_size head_request_failed no_range_support : Created

-- "bytes"
abbrev pub bytes_unit : Text
bytes_unit = b'b' ∷ b'y' ∷ b't' ∷ b'e' ∷ b's' ∷ []

abbrev pub empty_fetcher : ℕ → Fetcher
empty_fetcher size = record { size = size; cache = []; lru_order = [] }

-- `head` is the answer to the HEAD request, `none` where it fails.
unfoldable pub new : ℤ → Option Head → Created
new size head = if is_nonpos size then invalid_file_size else elim head [
  | none ↦ head_request_failed
  | some h ↦
      if h.status == 200
      then (if text_beq h.accept_ranges bytes_unit
          then created (empty_fetcher (to_ℕ size))
          else no_range_support)
      else head_request_failed
]

unfoldable pub update_lru : ℕ → Fetcher → Fetcher
update_lru offset f = record f { lru_order = erase offset f.lru_order ++ offset ∷ [] }

-- The loop of evictOldChunks over the order.
unfoldable pub evict_from : List ℕ → Map ℕ Chunk → List ℕ × Map ℕ Chunk
evict_from [] cache = ([], cache)
evict_from (oldest ∷ rest) cache = elim (ltb cache_size (length cache)) [
  | true ↦ evict_from rest (delete oldest cache)
  | false ↦ (oldest ∷ rest, cache)
]

unfoldable pub evict_old_chunks : Fetcher → Fetcher
evict_old_chunks f =
    let (order, cache) = evict_from f.lru_order f.cache in
    record f { cache = cache; lru_order = order }

-- The look of getChunk into the cache, and what it gives where the chunk is there.
unfoldable pub look_up : ℕ → Fetcher → Fetcher × Option Chunk
look_up offset f = elim (get offset f.cache) [
  | none ↦ (f, none)
  | some c ↦ (update_lru offset f, some c)
]

unfoldable pub store_chunk : ℕ → Chunk → Fetcher → Fetcher
store_chunk offset c f =
    evict_old_chunks (update_lru offset (record f { cache = put offset c f.cache }))

unfoldable pub close : Fetcher → Fetcher
close f = record f { cache = []; lru_order = [] }

-- The offsets that prefetch asks for after a read up to `offset`: those of the next chunks in the file
-- that are not cached when it comes to them; `cached` answers this for each.
unfoldable pub prefetch_from : ℕ → ℕ → (ℕ → Bool) → ℕ → ℕ → List ℕ
prefetch_from size offset cached i zero = []
prefetch_from size offset cached i (suc n) =
    let next = (offset / chunk_size + i) * chunk_size in
    let rest = prefetch_from size offset cached (i + 1) n in
    if leb size next then [] else if cached next then rest else next ∷ rest

unfoldable pub prefetch : ℕ → (ℕ → Bool) → ℕ → List ℕ
prefetch size cached offset = prefetch_from size offset cached 1 (max_readahead / chunk_size)

pub data Move : Type 0 where
  looks : ℕ → Move
  stores : ℕ → Chunk → Move
  closes : Move

unfoldable pub step : Move → Fetcher → Fetcher
step (looks offset) f = (look_up offset f).0
step (stores offset c) f = store_chunk offset c f
step closes f = close f

unfoldable pub run : List Move → Fetcher → Fetcher
run [] f = f
run (m ∷ ms) f = run ms (step m f)
