-- ===== src/Fetcher/RangeLru/Chunks.antt =====
-- internal/fetcher/store_rangelru.go: what a chunk holds, against the remote file.
use fuse_stream_mvp.Base.{
  ℕ, zero, suc, ◌+◌, ◌-◌, ◌≤◌, ◌<◌, ◌≡◌, refl, ◌⊎◌, inl, inr, ap, Option, none, some, List, [], ◌∷◌,
  arith, length, take, drop, length-drop, take_of_length-le, erase, contains, ◌++◌, Option-cases,
  Bool-cases,
}
use fuse_stream_mvp.Base.Maps.{Map, get, put, delete, get-put, get-delete, nat_eq}
use fuse_stream_mvp.Fetcher.RangeLru.{
  Failure, Chunk, Store, Env, Fetched, content, failure, do_range_request, retry, end_offset,
  fetch_chunk, evict, update_lru, cached, of_chunk, Got, found, fails, panics, store_chunk,
  await_chunk, get_chunk,
}
use fuse_stream_mvp.Fetcher.RangeLru.Cache.{Keeps, store_chunk_open}

-- A server that honours Range: what it sends for `start` to `end` are those bytes of the file.
abbrev pub IsHonest : List ℕ → Env → Type 0
IsHonest file env =
    (attempt start end : ℕ) (b : List ℕ)
    → start ≤ end
    → do_range_request env attempt start end ≡ content b
    → b ≡ take (suc end - start) (drop start file)

-- The chunk of the file at an offset.
abbrev pub chunk_at : List ℕ → ℕ → ℕ → List ℕ
chunk_at file chunk_size offset = take chunk_size (drop offset file)

pub Fetched-cases :
    (f : Fetched) → ((b : List ℕ) × (f ≡ content b)) ⊎ ((e : Failure) × (f ≡ failure e))
Fetched-cases (content b) = inl (b, refl)
Fetched-cases (failure e) = inr (e, refl)

retry-content :
    (file : List ℕ) (env : Env) (offset end left attempt : ℕ) (last_err : Option Failure)
    → IsHonest file env
    → offset ≤ end
    → (retry env offset end left attempt last_err).err ≡ none
    → (retry env offset end left attempt last_err).content
      ≡ take (suc end - offset) (drop offset file)
unfolding retry
retry-content file env offset end zero attempt last_err honest h e = cc
retry-content file env offset end (suc left) attempt last_err honest h e =
    elim (Fetched-cases (do_range_request env attempt offset end)) [
      | inl (b, got) ↦ ground (arith, honest attempt offset end b h got)
      | inr (f, lost) ↦
          ground (arith, retry-content file env offset end left (attempt + 1) (some f) honest h)
    ]

-- The bytes asked for are the chunk, cut off at the end of the file.
pub end_offset-chunk :
    (file : List ℕ) (s : Store) (offset : ℕ)
    → s.size ≡ length file
    → 0 < s.chunk_size
    → offset < s.size
    → (offset ≤ end_offset s offset)
      × (take (suc (end_offset s offset) - offset) (drop offset file)
          ≡ chunk_at file s.chunk_size offset)
unfolding end_offset
end_offset-chunk file s offset size positive h =
    let rest : length (drop offset file) ≡ length file - offset = length-drop offset file in
    ground (
      arith,
      rest,
      take_of_length-le (suc (s.size - 1) - offset) (drop offset file),
      take_of_length-le s.chunk_size (drop offset file),
      ap (λ n. take n (drop offset file)) exact,
    )
  where
    exact : suc (offset + s.chunk_size - 1) - offset ≡ s.chunk_size
    exact = omega arith

-- A chunk that was fetched without error is the chunk of the file.
pub fetch_chunk-content :
    (file : List ℕ) (env : Env) (s : Store) (offset : ℕ)
    → IsHonest file env
    → s.size ≡ length file
    → 0 < s.chunk_size
    → offset < s.size
    → (fetch_chunk env s offset).err ≡ none
    → (fetch_chunk env s offset).content ≡ chunk_at file s.chunk_size offset
unfolding fetch_chunk
fetch_chunk-content file env s offset honest size positive h e =
    let range = end_offset-chunk file s offset size positive h in
    ground
      (arith, range, retry-content file env offset (end_offset s offset) 3 0 none honest range.0)

pub evict-get_of_some :
    (capacity k : ℕ) (order : List ℕ) (m : Map ℕ Chunk) (c : Chunk)
    → get k (evict capacity order m).1 ≡ some c
    → get k m ≡ some c
unfolding evict
evict-get_of_some capacity k [] m c h = h
evict-get_of_some capacity k (o ∷ rest) m c h =
    ground (arith, evict-get_of_some capacity k rest (delete o m) c, get-delete k o m)

-- An open store of the file whose chunks without error are the file's.
pub record IsSound (file : List ℕ) (chunk_size : ℕ) (s : Store) : Type 0 where
  pub sized : s.size ≡ length file
  pub chunked : s.chunk_size ≡ chunk_size
  pub positive : 0 < chunk_size
  pub opened : (m : Map ℕ Chunk) × (s.cache ≡ some m)
  pub right :
      (k : ℕ) (c : Chunk)
      → cached s k ≡ some c
      → c.err ≡ none
      → c.content ≡ chunk_at file chunk_size k

-- What getChunk may give at `offset`: the chunk of the file, or an error.
abbrev pub IsRight : List ℕ → ℕ → ℕ → Got → Type 0
IsRight file chunk_size offset (found b) = b ≡ chunk_at file chunk_size offset
IsRight file chunk_size offset (fails e) = Unit {0}
IsRight file chunk_size offset panics = ⊥

module _ (file : List ℕ) (chunk_size : ℕ) where
  of_chunk-IsRight :
      (k : ℕ) (c : Chunk)
      → (c.err ≡ none → c.content ≡ chunk_at file chunk_size k)
      → IsRight file chunk_size k (of_chunk c)
  of_chunk-IsRight k c h = ground arith

  cached-IsRight :
      (s : Store) (k : ℕ) (c : Chunk)
      → IsSound file chunk_size s
      → cached s k ≡ some c
      → IsRight file chunk_size k (of_chunk c)
  cached-IsRight s k c v e = of_chunk-IsRight k c (v.right k c e)

  pub store_chunk-IsSound :
      (s : Store) (o : ℕ) (c : Chunk)
      → (c.err ≡ none → c.content ≡ chunk_at file chunk_size o)
      → IsSound file chunk_size s
      → IsSound file chunk_size (store_chunk s o c).0
        × IsRight file chunk_size o (store_chunk s o c).1
  unfolding cached update_lru
  store_chunk-IsSound s o c h v =
      let (m, e) = v.opened in
      let order = erase o s.lru_order ++ o ∷ [] in
      let kept : (k : ℕ) (d : Chunk)
          → get k (evict s.cache_capacity order (put o c m)).1 ≡ some d
          → d.err ≡ none
          → d.content ≡ chunk_at file chunk_size k =
        λ k d g ok. ground (
          arith,
          evict-get_of_some s.cache_capacity k order (put o c m) d g,
          get-put k o c m,
          v.right k d,
        ) in
      rw (store_chunk_open s o c m e) (
        record {
          sized = v.sized;
          chunked = v.chunked;
          positive = v.positive;
          opened = (_, refl);
          right = kept;
        },
        of_chunk-IsRight o c h,
      )

  pub mark-IsSound :
      (s : Store) (active : List ℕ)
      → IsSound file chunk_size s
      → IsSound file chunk_size (record s { active_reads = active })
  unfolding cached
  mark-IsSound s active v = record {
    sized = v.sized;
    chunked = v.chunked;
    positive = v.positive;
    opened = v.opened;
    right = v.right;
  }

  await_chunk-IsSound :
      (env : Env) (s : Store) (o : ℕ)
      → Keeps (IsSound file chunk_size) env
      → IsSound file chunk_size s
      → IsSound file chunk_size (await_chunk env s o).0
        × IsRight file chunk_size o (await_chunk env s o).1
  unfolding await_chunk
  await_chunk-IsSound env s o keeps v =
      let w = keeps o s v in
      elim (Bool-cases (env.wait_done o)) [
        | inl done ↦ rw done (v, tt)
        | inr waits ↦ elim (Option-cases (cached (env.meanwhile o s) o)) [
          | inl gone ↦ rw (waits, gone) (w, tt)
          | inr (c, e) ↦ rw (waits, e) (w, cached-IsRight (env.meanwhile o s) o c w e)
        ]
      ]

  -- Whatever the network and the other goroutines do, getChunk gives the chunk of the file or an
  -- error, and leaves the store sound.
  pub get_chunk-IsSound :
      (env : Env) (s : Store) (o : ℕ)
      → IsHonest file env
      → Keeps (IsSound file chunk_size) env
      → o < length file
      → IsSound file chunk_size s
      → IsSound file chunk_size (get_chunk env s o).0
        × IsRight file chunk_size o (get_chunk env s o).1
  unfolding get_chunk
  get_chunk-IsSound env s o honest keeps h v =
      let marked : Store = record s { active_reads = o ∷ s.active_reads } in
      let fresh : (fetch_chunk env s o).err ≡ none
          → (fetch_chunk env s o).content ≡ chunk_at file chunk_size o =
        λ ok. rw (← v.chunked) (
          fetch_chunk-content file env s o honest v.sized (omega (arith, ap (λ n. n) v.chunked))
            (omega arith) ok) in
      elim (Option-cases (cached s o)) [
        | inr (c, e) ↦ rw (e, get_chunk) (v, cached-IsRight s o c v e)
        | inl miss ↦ elim (Bool-cases (contains o s.active_reads)) [
          | inl busy ↦ rw (miss, busy, get_chunk) (await_chunk-IsSound env s o keeps v)
          | inr idle ↦
              rw (miss, idle, get_chunk)
                (store_chunk-IsSound (env.meanwhile o marked) o (fetch_chunk env s o) fresh
                  (keeps o marked (mark-IsSound s (o ∷ s.active_reads) v)))
        ]
      ]
