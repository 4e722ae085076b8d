-- ===== src/Fetcher/RangeLru/Faults.antt =====
-- internal/fetcher/store_rangelru.go: what the store does with a server that does not send the range
-- asked for, with a fetch that failed, and with a chunk that is read again.
use fuse_stream_mvp.Base.{
  ℕ, zero, suc, ◌+◌, ◌-◌, ◌*◌, ◌/◌, ◌≤◌, ◌<◌, ◌≡◌, refl, ◌⊎◌, inl, inr, ◌∙◌, ap, false, true, none,
  some, List, [], ◌∷◌, ◌++◌, arith, length, take, drop, erase, contains, map, Option-cases,
  contains-append, erase-IsDistinct, snoc-IsDistinct, contains-erase_self, erase_absent,
  length-append, leb-false_of_lt, ltb-false_of_le, lt→ltb,
}
use fuse_stream_mvp.Base.Maps.{Map, put, delete, get-put, get-delete, nat_eq}
use fuse_stream_mvp.Fetcher.RangeLru.{
  ctx_done, Chunk, Response, Store, Env, do_range_request, retry, end_offset, fetch_chunk, evict,
  update_lru, cached, of_chunk, Got, Error, found, fails, store_chunk, get_chunk, returns,
  out_of_fuel, copies, copy_from, round, read_loop, read_at,
}
use fuse_stream_mvp.Fetcher.RangeLru.Cache.{
  IsCoherent, is_some, mark-IsCoherent, store_chunk_open, evict-get,
}

evict-last :
    (capacity o : ℕ) (xs : List ℕ) (m : Map ℕ Chunk)
    → 0 < capacity
    → contains o (evict capacity (xs ++ o ∷ []) m).0 ≡ true
unfolding evict contains
evict-last capacity o [] m h = ground arith
evict-last capacity o (x ∷ xs) m h =
    ground (arith, evict-last capacity o xs (delete x m) h, contains-append o xs (o ∷ []))

-- A chunk that was just stored is found.
cached-store_chunk :
    (s : Store) (o : ℕ) (c : Chunk) (m : Map ℕ Chunk)
    → IsCoherent s
    → s.cache ≡ some m
    → 0 < s.cache_capacity
    → cached (store_chunk s o c).0 o ≡ some c
unfolding cached update_lru
cached-store_chunk s o c m v e h =
    let order = erase o s.lru_order ++ o ∷ [] in
    let distinct =
      snoc-IsDistinct o (erase o s.lru_order) (erase-IsDistinct o s.lru_order v.distinct)
        (contains-erase_self o s.lru_order v.distinct) in
    rw (store_chunk_open s o c m e) (
      evict-get s.cache_capacity o order (put o c m) distinct
        (evict-last s.cache_capacity o (erase o s.lru_order) (put o c m) h)
      ∙ ground (arith, get-put o o c m))

-- A fetch of `o` starts: the store is open, and nothing is known or under way at `o`.
pub record Starts (env : Env) (s : Store) (o : ℕ) : Type 0 where
  pub coherent : IsCoherent s
  pub opened : (m : Map ℕ Chunk) × (s.cache ≡ some m)
  pub roomy : 0 < s.cache_capacity
  pub missing : cached s o ≡ none
  pub idle : s.active_reads ≡ []
  pub alone : (s' : Store) → env.meanwhile o s' ≡ s'

-- What the first fetch of `o` leaves, and what it gives.
get_chunk-Starts :
    (env : Env) (s : Store) (o : ℕ)
    → Starts env s o
    → (cached (get_chunk env s o).0 o ≡ some (fetch_chunk env s o))
      × ((get_chunk env s o).1 ≡ of_chunk (fetch_chunk env s o))
      × ((get_chunk env s o).0.size ≡ s.size)
      × ((get_chunk env s o).0.chunk_size ≡ s.chunk_size)
unfolding get_chunk contains
get_chunk-Starts env s o v =
    let (m, e) = v.opened in
    let marked : Store = record s { active_reads = o ∷ s.active_reads } in
    let c = fetch_chunk env s o in
    let w : IsCoherent marked = mark-IsCoherent s (o ∷ s.active_reads) v.coherent in
    let kept = cached-store_chunk marked o c m w e v.roomy in
    ground (arith, kept, v.alone marked, store_chunk_open marked o c m e)

get_chunk-cached :
    (env : Env) (s : Store) (o : ℕ) (c : Chunk)
    → cached s o ≡ some c
    → get_chunk env s o ≡ (s, of_chunk c)
unfolding get_chunk
get_chunk-cached env s o c e = rw (e, get_chunk)

pub fetch_chunk-done :
    (env : Env) (s : Store) (o : ℕ)
    → env.semaphore_done o ≡ true
    → (fetch_chunk env s o).err ≡ some ctx_done
unfolding fetch_chunk
fetch_chunk-done env s o done = rw done refl

-- The reads of a chunk one after the other, each over a network and at a time of its own: the store
-- that they leave, and what they gave.
abbrev pub get_chunks : List Env → Store → ℕ → Store × List Got
get_chunks [] s o = (s, [])
get_chunks (env ∷ envs) s o =
    let (s', got) = get_chunk env s o in let (end, more) = get_chunks envs s' o in (end, got ∷ more)

get_chunks-cached :
    (envs : List Env) (s : Store) (o : ℕ) (c : Chunk)
    → cached s o ≡ some c
    → get_chunks envs s o ≡ (s, map (λ env. of_chunk c) envs)
get_chunks-cached [] s o c e = refl
get_chunks-cached (env ∷ envs) s o c e =
    ap (λ (p : Store × Got). ((get_chunks envs p.0 o).0, p.1 ∷ (get_chunks envs p.0 o).1))
      (get_chunk-cached env s o c e)
    ∙ ap (λ (p : Store × List Got). (p.0, of_chunk c ∷ p.1)) (get_chunks-cached envs s o c e)

of_chunk-failed : (c : Chunk) (e : Error) → c.err ≡ some e → of_chunk c ≡ fails e
of_chunk-failed c e failed = ground (arith, failed)

-- In an open store that is coherent and holds at least one chunk, with no other goroutine at it and
-- nothing known or under way at an offset: when the first fetch of the chunk there ends with an
-- error, a done context included, getChunk gives this error and keeps it in the cache; as long as
-- nothing but getChunk of this chunk changes the store, each later such call, however many there
-- are and over whatever network, gives the same error and leaves the store as it is.
pub failed_chunk-stays :
    (env : Env) (later : List Env) (s : Store) (o : ℕ) (e : Error)
    → Starts env s o
    → (fetch_chunk env s o).err ≡ some e
    → let s' = (get_chunk env s o).0 in
      ((get_chunk env s o).1 ≡ fails e) × (get_chunks later s' o ≡ (s', map (λ env. fails e) later))
failed_chunk-stays env later s o e v failed =
    let (kept, got, _, _) = get_chunk-Starts env s o v in
    let c = fetch_chunk env s o in
    let same : of_chunk c ≡ fails e = of_chunk-failed c e failed in
    (
      got ∙ same,
      get_chunks-cached later (get_chunk env s o).0 o c kept
          ∙ ap (λ g. ((get_chunk env s o).0, map (λ env. g) later)) same,
    )

-- A first attempt that is answered is the chunk, with the body as it came.
fetch_chunk-answered :
    (env : Env) (s : Store) (o : ℕ) (r : Response) (b : List ℕ)
    → env.semaphore_done o ≡ false
    → env.exchange 0 o (end_offset s o) ≡ some r
    → (r.status ≡ 206) ⊎ (r.status ≡ 200)
    → r.body ≡ some b
    → fetch_chunk env s o ≡ record { offset = o; content = b; err = none }
unfolding fetch_chunk retry do_range_request
fetch_chunk-answered env s o r b free sent status body = ground arith

-- The first attempt at `o` is answered by `b`, whatever `b` is.
pub record Sends (env : Env) (s : Store) (o : ℕ) (b : List ℕ) : Type 0 where
  pub starts : Starts env s o
  pub free : env.semaphore_done o ≡ false
  pub response : Response
  pub sent : env.exchange 0 o (end_offset s o) ≡ some response
  pub accepted : (response.status ≡ 206) ⊎ (response.status ≡ 200)
  pub body : response.body ≡ some b

get_chunk-Sends :
    (env : Env) (s : Store) (o : ℕ) (b : List ℕ) → Sends env s o b → (get_chunk env s o).1 ≡ found b
get_chunk-Sends env s o b v =
    (get_chunk-Starts env s o v.starts).1
    ∙ ap of_chunk (fetch_chunk-answered env s o v.response b v.free v.sent v.accepted v.body)

-- A server that ignores Range and sends the whole file with status 200: a first read behind the
-- first chunk gives the bytes at the same distance from the start of the file instead.
pub read_at_ignored_range :
    (env : Env) (s : Store) (file : List ℕ) (len off fuel : ℕ)
    → Sends env s (off / s.chunk_size * s.chunk_size) file
    → off < s.size
    → 0 < len
    → off - off / s.chunk_size * s.chunk_size + len ≤ length file
    → (read_at (suc (suc fuel)) env s len off).1
      ≡ returns (take len (drop (off - off / s.chunk_size * s.chunk_size) file)) none
unfolding read_at read_loop round copy_from
read_at_ignored_range env s file len off fuel v inside some_len fits =
    let start : ℕ = off / s.chunk_size * s.chunk_size in
    ground (arith, get_chunk-Sends env s start file v)

copy_from-nothing :
    (b : List ℕ) (o remaining : ℕ)
    → length b ≡ o
    → 0 < remaining
    → copy_from b o remaining ≡ copies 0 []
unfolding copy_from take
copy_from-nothing b o remaining short more =
    let none_left : length b - o ≡ 0 = omega arith in
    rw (ltb-false_of_le (length b) o (omega arith), none_left, lt→ltb 0 remaining more)

round-stuck :
    (env : Env) (s s' : Store) (remaining current : ℕ) (out b : List ℕ)
    → current < s.size
    → get_chunk env s (current / s.chunk_size * s.chunk_size) ≡ (s', found b)
    → length b ≡ current - current / s.chunk_size * s.chunk_size
    → 0 < remaining
    → ((round env s remaining current out).0 ≡ s')
      × ((round env s remaining current out).1 ≡ copies 0 [])
unfolding round
round-stuck env s s' remaining current out b inside got short more =
    rw (leb-false_of_lt s.size current inside, got)
      (refl, copy_from-nothing b _ remaining short more)

-- While the chunk at `current` ends there, the loop of ReadAt copies nothing and goes on.
read_loop-stuck :
    (fuel : ℕ) (env : Env) (s : Store) (remaining current : ℕ) (out b : List ℕ)
    → current < s.size
    → get_chunk env s (current / s.chunk_size * s.chunk_size) ≡ (s, found b)
    → length b ≡ current - current / s.chunk_size * s.chunk_size
    → 0 < remaining
    → (read_loop fuel env s remaining current out).1 ≡ out_of_fuel
unfolding read_loop
read_loop-stuck zero env s remaining current out b inside got short more = refl
read_loop-stuck (suc fuel) env s remaining current out b inside got short more =
    let same : remaining - 0 ≡ remaining = omega arith in
    let here : current + 0 ≡ current = omega arith in
    let (state, nothing) = round-stuck env s s remaining current out b inside got short more in
    rw (lt→ltb 0 remaining more, nothing, state, read_loop)
      (rw (same, here)
        (read_loop-stuck fuel env s remaining current (out ++ []) b inside got short more))

-- A server that answers a range with an empty body: a read at the start of that chunk never
-- returns, however many rounds its loop makes.
pub read_at_empty_body :
    (env : Env) (s : Store) (len off fuel : ℕ)
    → off / s.chunk_size * s.chunk_size ≡ off
    → Sends env s off []
    → off < s.size
    → 0 < len
    → (read_at fuel env s len off).1 ≡ out_of_fuel
unfolding read_at read_loop
read_at_empty_body env s len off zero aligned v inside some_len =
    rw (leb-false_of_lt s.size off inside)
read_at_empty_body env s len off (suc fuel) aligned v inside some_len =
    let s' = (get_chunk env s off).0 in
    let (kept, _, sized, chunked) = get_chunk-Starts env s off v.starts in
    let empty = fetch_chunk-answered env s off v.response [] v.free v.sent v.accepted v.body in
    let first : get_chunk env s (off / s.chunk_size * s.chunk_size) ≡ (s', found []) =
      rw aligned (λ i. (s', get_chunk-Sends env s off [] v i)) in
    let again : get_chunk env s' (off / s'.chunk_size * s'.chunk_size) ≡ (s', found []) =
      rw (chunked, aligned) (get_chunk-cached env s' off _ (kept ∙ ap some empty)) in
    let (state, nothing) =
      round-stuck env s s' len off [] [] inside first (omega (arith, aligned)) some_len in
    let same : len - 0 ≡ len = omega arith in
    let here : off + 0 ≡ off = omega arith in
    let whole : off / s'.chunk_size * s'.chunk_size ≡ off = rw chunked aligned in
    rw
      (
        leb-false_of_lt s.size off inside,
        lt→ltb 0 len some_len,
        nothing,
        state,
        same,
        here,
        read_loop,
      )
      (read_loop-stuck fuel env s' len off [] [] (rw sized inside) again (omega (arith, whole))
        some_len)

evict-one :
    (capacity o : ℕ) (ys : List ℕ) (m : Map ℕ Chunk)
    → length ys ≡ capacity
    → evict capacity (o ∷ ys) m ≡ (ys, delete o m)
unfolding evict
evict-one capacity o [] m h = ground arith
evict-one capacity o (y ∷ ys) m h = ground arith

-- The first fetch of `o` drops what stands first in a full order.
get_chunk-drops :
    (env : Env) (s : Store) (oldest o : ℕ) (rest : List ℕ)
    → Starts env s o
    → s.lru_order ≡ oldest ∷ rest
    → length s.lru_order ≡ s.cache_capacity
    → cached (get_chunk env s o).0 oldest ≡ none
unfolding get_chunk contains cached update_lru
get_chunk-drops env s oldest o rest v order full =
    let (m, e) = v.opened in
    let c = fetch_chunk env s o in
    let marked : Store = record s { active_reads = o ∷ s.active_reads } in
    let new : contains o s.lru_order ≡ false = v.coherent.agrees o ∙ ap is_some v.missing in
    let queue : erase o s.lru_order ++ o ∷ [] ≡ oldest ∷ (rest ++ o ∷ []) =
      ap (λ l. l ++ o ∷ []) (erase_absent o s.lru_order new ∙ order) in
    let size : length (rest ++ o ∷ []) ≡ s.cache_capacity =
      omega (arith, length-append rest (o ∷ []), ap length order) in
    let dropped =
      ap (λ l. evict s.cache_capacity l (put o c m)) queue
      ∙ evict-one s.cache_capacity oldest (rest ++ o ∷ []) (put o c m) size in
    ground (
      arith,
      v.alone marked,
      store_chunk_open marked o c m e,
      dropped,
      get-delete oldest oldest (put o c m),
    )

-- The order is that of the fetches, and a read of a cached chunk does not change it: in a full cache
-- the chunk fetched first is dropped by the next fetch, even when it was the last one read.
pub oldest_fetch_is_dropped :
    (env later : Env) (s : Store) (oldest o : ℕ) (rest : List ℕ)
    → Starts later s o
    → s.lru_order ≡ oldest ∷ rest
    → length s.lru_order ≡ s.cache_capacity
    → let read = (get_chunk env s oldest).0 in
      (read ≡ s) × (cached (get_chunk later read o).0 oldest ≡ none)
unfolding contains
oldest_fetch_is_dropped env later s oldest o rest v order full =
    (same, rw same (get_chunk-drops later s oldest o rest v order full))
  where
    listed : contains oldest s.lru_order ≡ true
    listed = rw order (ground arith)

    same : (get_chunk env s oldest).0 ≡ s
    same = elim (Option-cases (cached s oldest)) [
      | inl gone ↦ absurd (ground (arith, v.coherent.agrees oldest, ap is_some gone))
      | inr (c, e) ↦ ap (λ p. p.0) (get_chunk-cached env s oldest c e)
    ]
