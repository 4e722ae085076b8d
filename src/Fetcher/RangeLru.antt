-- ===== src/Fetcher/RangeLru.antt =====
-- internal/fetcher/store_rangelru.go: chunks fetched by HTTP Range requests and cached in memory.
--
-- `Env` is what one call meets outside the store: the answers of the server, the moments at which
-- the context is found done, and what other goroutines do to the store while no lock is held.
-- The semaphore of `fetchChunk` is given back on every return and is not part of the state.
pub mod Cache
pub mod Chunks
pub mod Reads
pub mod Complete
pub mod Faults
pub mod New
pub mod Flights
use fuse_stream_mvp.Base.{
  ℕ, zero, suc, ◌+◌, ◌-◌, ◌*◌, ◌/◌, Bool, true, false, ◌&&◌, ◌||◌, Option, none, some, List, [],
  ◌∷◌, ◌++◌, ◌≡◌, refl, ◌⊎◌, inl, inr, ltb, leb, ◌==◌, if◌then◌else◌, length, take, drop, contains,
  erase,
}
use fuse_stream_mvp.Base.Maps.{Map, get, put, delete, nat_eq}
use fuse_stream_mvp.Base.Words.{inc32, dec32}

-- Why one request gave no data.
pub data Failure : Type 0 where
  request_failed : Failure
  unexpected_status : ℕ → Failure

pub data Error : Type 0 where
  eof ctx_done chunk_fetch_failed : Error
  failed_after_retries : Option Failure → Error

-- An answer of the server; the body is `none` where reading it fails.
pub record Response : Type 0 where
  pub status : ℕ
  pub body : Option (List ℕ)

pub record Chunk : Type 0 where
  pub offset : ℕ
  pub content : List ℕ
  pub err : Option Error

-- `cache` is `none` after Close, where Go's map is nil.
pub record Store : Type 0 where
  pub size : ℕ
  pub chunk_size : ℕ
  pub cache_capacity : ℕ
  pub cache : Option (Map ℕ Chunk)
  pub lru_order : List ℕ
  pub active_reads : List ℕ
  pub ref_count : ℕ

pub record Env : Type 0 where
  pub semaphore_done : ℕ → Bool
  pub timer_done : ℕ → ℕ → Bool
  pub wait_done : ℕ → Bool
  pub exchange : ℕ → ℕ → ℕ → Option Response
  pub meanwhile : ℕ → Store → Store

pub data Fetched : Type 0 where
  content : List ℕ → Fetched
  failure : Failure → Fetched

-- The answer to attempt number `attempt`.
unfoldable pub do_range_request : Env → ℕ → ℕ → ℕ → Fetched
do_range_request env attempt start end = elim (env.exchange attempt start end) [
  | none ↦ failure request_failed
  | some r ↦
      if r.status == 206 || r.status == 200
      then elim r.body [ none ↦ failure request_failed | some b ↦ content b ]
      else failure (unexpected_status r.status)
]

abbrev pub failed_chunk : ℕ → Error → Chunk
failed_chunk offset e = record { offset = offset; content = []; err = some e }

-- The retry loop: `left` attempts are left, and this is attempt number `attempt`.
unfoldable pub retry : Env → ℕ → ℕ → ℕ → ℕ → Option Failure → Chunk
retry env offset end zero attempt last_err = failed_chunk offset (failed_after_retries last_err)
retry env offset end (suc left) attempt last_err =
    if ltb 0 attempt && env.timer_done offset attempt
    then failed_chunk offset ctx_done
    else elim (do_range_request env attempt offset end) [
      | content b ↦ record { offset = offset; content = b; err = none }
      | failure e ↦ retry env offset end left (attempt + 1) (some e)
    ]

unfoldable pub end_offset : Store → ℕ → ℕ
end_offset s offset =
    let end = offset + s.chunk_size - 1 in if leb s.size end then s.size - 1 else end

unfoldable pub fetch_chunk : Env → Store → ℕ → Chunk
fetch_chunk env s offset =
    if env.semaphore_done offset
    then failed_chunk offset ctx_done
    else retry env offset (end_offset s offset) 3 0 none

-- `for len(s.lruOrder) > s.cacheCapacity`: what is left of the order and of the cache.
unfoldable pub evict : ℕ → List ℕ → Map ℕ Chunk → List ℕ × Map ℕ Chunk
evict capacity [] cache = ([], cache)
evict capacity (o ∷ rest) cache = elim (ltb capacity (length (o ∷ rest))) [
  | true ↦ evict capacity rest (delete o cache)
  | false ↦ (o ∷ rest, cache)
]

unfoldable pub update_lru : ℕ → ℕ → List ℕ → Map ℕ Chunk → List ℕ × Map ℕ Chunk
update_lru capacity offset order cache = evict capacity (erase offset order ++ offset ∷ []) cache

-- What getChunk gives its caller; a write to the nil map of a closed store panics.
pub data Got : Type 0 where
  found : List ℕ → Got
  fails : Error → Got
  panics : Got

abbrev pub of_chunk : Chunk → Got
of_chunk c = elim c.err [ none ↦ found c.content | some e ↦ fails e ]

unfoldable pub cached : Store → ℕ → Option Chunk
cached s offset = elim s.cache [ none ↦ none | some m ↦ get offset m ]

-- Under the lock: `s.cache[offset] = chunk`, updateLRU, and the end of the active read.
unfoldable pub store_chunk : Store → ℕ → Chunk → Store × Got
store_chunk s offset c = elim s.cache [
  | none ↦ (s, panics)
  | some m ↦
      let r = update_lru s.cache_capacity offset s.lru_order (put offset c m) in
      (
        record s { cache = some r.1; lru_order = r.0; active_reads = erase offset s.active_reads },
        of_chunk c,
      )
]

-- Another goroutine fetches the chunk: wait for it, and look again.
unfoldable pub await_chunk : Env → Store → ℕ → Store × Got
await_chunk env s offset =
    if env.wait_done offset
    then (s, fails ctx_done)
    else let s' = env.meanwhile offset s in
      (s', elim (cached s' offset) [ none ↦ fails chunk_fetch_failed | some c ↦ of_chunk c ])

unfoldable pub get_chunk : Env → Store → ℕ → Store × Got
get_chunk env s offset = elim (cached s offset) [
  | some c ↦ (s, of_chunk c)
  | none ↦
      if contains offset s.active_reads
      then await_chunk env s offset
      else let marked = record s { active_reads = offset ∷ s.active_reads } in
        store_chunk (env.meanwhile offset marked) offset (fetch_chunk env s offset)
]

-- The bytes that ReadAt put into the buffer (their number is its result n) and its error.
pub data Read : Type 0 where
  returns : List ℕ → Option Error → Read
  panicked : Read
  out_of_fuel : Read

-- One round of the loop of ReadAt ends the call, or copies `toCopy` bytes.
pub data Round : Type 0 where
  ends : Read → Round
  copies : ℕ → List ℕ → Round

pub Round-cases :
    (r : Round) → ((x : Read) × (r ≡ ends x)) ⊎ ((n : ℕ) × (b : List ℕ) × (r ≡ copies n b))
Round-cases (ends x) = inl (x, refl)
Round-cases (copies n b) = inr (n, b, refl)

-- A failure after some bytes is a short read.
abbrev pub cut_short : List ℕ → Error → Read
cut_short out e = if ltb 0 (length out) then returns out none else returns [] (some e)

-- The slice `chunk.data[offsetInChunk:offsetInChunk+toCopy]`, which panics where its end is below
-- its start.
unfoldable pub copy_from : List ℕ → ℕ → ℕ → Round
copy_from b offset_in_chunk remaining =
    if ltb (length b) offset_in_chunk
    then ends panicked
    else let available = length b - offset_in_chunk in
      let to_copy = if ltb available remaining then available else remaining in
      copies to_copy (take to_copy (drop offset_in_chunk b))

abbrev pub use_chunk : Got → List ℕ → ℕ → ℕ → Round
use_chunk panics out offset_in_chunk remaining = ends panicked
use_chunk (fails e) out offset_in_chunk remaining = ends (cut_short out e)
use_chunk (found b) out offset_in_chunk remaining = copy_from b offset_in_chunk remaining

-- The bytes copied so far, `out`, are totalRead many.
unfoldable pub round : Env → Store → ℕ → ℕ → List ℕ → Store × Round
round env s remaining current out =
    if leb s.size current
    then (s, ends (cut_short out eof))
    else let chunk_offset = current / s.chunk_size * s.chunk_size in
      let (s', got) = get_chunk env s chunk_offset in
      (s', use_chunk got out (current - chunk_offset) remaining)

unfoldable pub read_loop : ℕ → Env → Store → ℕ → ℕ → List ℕ → Store × Read
read_loop zero env s remaining current out = (s, out_of_fuel)
read_loop (suc fuel) env s remaining current out = elim (ltb 0 remaining) [
  | false ↦ (s, returns out none)
  | true ↦
      let (s', r) = round env s remaining current out in
      elim r [
        | ends result ↦ (s', result)
        | copies n b ↦ read_loop fuel env s' (remaining - n) (current + n) (out ++ b)
      ]
]

unfoldable pub read_at : ℕ → Env → Store → ℕ → ℕ → Store × Read
read_at fuel env s len off =
    if leb s.size off then (s, returns [] (some eof)) else read_loop fuel env s len off []

unfoldable pub inc_ref : Store → Store
inc_ref s = record s { ref_count = inc32 s.ref_count }

-- DecRef clears the cache with the last reference.
unfoldable pub dec_ref : Store → Store × ℕ
dec_ref s =
    let n = dec32 s.ref_count in
    (
      if n == 0
          then record s { ref_count = n; cache = some []; lru_order = [] }
          else record s { ref_count = n },
      n,
    )

unfoldable pub close : Store → Store
close s = record s { cache = none; lru_order = [] }
