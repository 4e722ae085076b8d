-- ===== src/Fetcher/RangeLru/Complete.antt =====
-- internal/fetcher/store_rangelru.go: ReadAt over a network that serves every range in the end.
use fuse_stream_mvp.Base.{
  ℕ, zero, suc, ◌+◌, ◌-◌, ◌*◌, ◌/◌, ◌≤◌, ◌<◌, ◌≡◌, refl, ◌⊎◌, inl, inr, ◌∙◌, sym, ap, false, true,
  Option, none, some, List, [], ◌∷◌, ◌++◌, arith, leb, ltb, length, take, drop, erase, contains,
  Option-cases, Bool-cases, ltb→lt, ltb-false→le, leb-false→lt, leb→le, length-append,
  leb-false_of_lt, take_of_length-le, length-drop,
}
use fuse_stream_mvp.Base.Maps.{get, put, get-put, nat_eq}
use fuse_stream_mvp.Fetcher.RangeLru.{
  Failure, Chunk, Store, Env, content, do_range_request, retry, end_offset, fetch_chunk, evict,
  update_lru, cached, of_chunk, found, store_chunk, get_chunk, Read, returns, ends, copies, round,
  read_loop, read_at,
}
use fuse_stream_mvp.Fetcher.RangeLru.Cache.{store_chunk_open}
use fuse_stream_mvp.Fetcher.RangeLru.Chunks.{
  IsHonest, IsSound, mark-IsSound, chunk_at, Fetched-cases, evict-get_of_some, store_chunk-IsSound,
  fetch_chunk-content, end_offset-chunk,
}
use fuse_stream_mvp.Fetcher.RangeLru.Reads.{
  IsRound, IsCopied, chunk_start, copy_from-IsRound, extend-IsCopied,
}

-- Each range is served by one of the three attempts, no context is done, and no other goroutine
-- touches the store.
pub record IsQuiet (file : List ℕ) (env : Env) : Type 0 where
  pub honest : IsHonest file env
  pub served :
      (start end : ℕ)
      → start ≤ end
      → (k : ℕ) × (b : List ℕ) × (k < 3) × (do_range_request env k start end ≡ content b)
  pub unhurried : (o k : ℕ) → (env.semaphore_done o ≡ false) × (env.timer_done o k ≡ false)
  pub alone : (o : ℕ) (s : Store) → env.meanwhile o s ≡ s

retry_ok :
    (env : Env) (offset end left attempt k : ℕ) (last_err : Option Failure) (b : List ℕ)
    → ((j : ℕ) → env.timer_done offset j ≡ false)
    → attempt ≤ k
    → k < attempt + left
    → do_range_request env k offset end ≡ content b
    → (retry env offset end left attempt last_err).err ≡ none
unfolding retry
retry_ok env offset end zero attempt k last_err b timers low high got = absurd (omega arith)
retry_ok env offset end (suc left) attempt k last_err b timers low high got =
    elim (Fetched-cases (do_range_request env attempt offset end)) [
      | inl (c, e) ↦ ground (arith, timers attempt)
      | inr (f, e) ↦
          let next : attempt + 1 ≤ k = grind arith in
          ground (
            arith,
            timers attempt,
            retry_ok env offset end left (attempt + 1) k (some f) b timers next (omega arith) got,
          )
    ]

-- Every cached chunk came without error, and no fetch is under way.
pub record IsClean (s : Store) : Type 0 where
  pub healthy : (k : ℕ) (c : Chunk) → cached s k ≡ some c → c.err ≡ none
  pub idle : s.active_reads ≡ []

module _ (file : List ℕ) (cs : ℕ) (env : Env) (q : IsQuiet file env) where
  fetch_chunk_ok :
      (s : Store) (o : ℕ) → IsSound file cs s → o < length file → (fetch_chunk env s o).err ≡ none
  unfolding fetch_chunk
  fetch_chunk_ok s o v h =
      let range = end_offset-chunk file s o v.sized (rw v.chunked v.positive) (rw v.sized h) in
      let (k, b, low, got) = q.served o (end_offset s o) range.0 in
      rw (q.unhurried o 0).0 (
        retry_ok env o (end_offset s o) 3 0 k none b (λ j. (q.unhurried o j).1) (omega arith)
          (omega arith) got)

  of_chunk-found : (c : Chunk) → c.err ≡ none → of_chunk c ≡ found c.content
  of_chunk-found c e = rw e

  store_chunk-IsClean :
      (s : Store) (o : ℕ) (c : Chunk)
      → c.err ≡ none
      → IsSound file cs s
      → IsClean (record s { active_reads = [] })
      → IsClean (store_chunk (record s { active_reads = o ∷ [] }) o c).0
        × ((store_chunk (record s { active_reads = o ∷ [] }) o c).1 ≡ found c.content)
  unfolding cached update_lru erase
  store_chunk-IsClean s o c ok v clean =
      let (m, e) = v.opened in
      let order = erase o s.lru_order ++ o ∷ [] in
      let kept : (k : ℕ) (d : Chunk)
          → get k (evict s.cache_capacity order (put o c m)).1 ≡ some d
          → d.err ≡ none =
        λ k d g. ground (
          arith,
          evict-get_of_some s.cache_capacity k order (put o c m) d g,
          get-put k o c m,
          clean.healthy k d,
        ) in
      rw (store_chunk_open (record s { active_reads = o ∷ [] }) o c m e)
        (record { healthy = kept; idle = ground arith }, of_chunk-found c ok)

  get_chunk-found :
      (s : Store) (o : ℕ)
      → o < length file
      → IsSound file cs s
      → IsClean s
      → IsSound file cs (get_chunk env s o).0
        × IsClean (get_chunk env s o).0
        × ((get_chunk env s o).1 ≡ found (chunk_at file cs o))
  unfolding get_chunk contains cached
  get_chunk-found s o h v clean =
      let rested : Store = record s { active_reads = [] } in
      let marked : Store = record s { active_reads = o ∷ [] } in
      let w = mark-IsSound file cs s [] v in
      let ok = fetch_chunk_ok rested o w h in
      let right : (fetch_chunk env rested o).content ≡ chunk_at file cs o = rw (← v.chunked) (
        fetch_chunk-content file env rested o q.honest v.sized (rw v.chunked v.positive)
          (rw v.sized h) ok) in
      let sound =
        store_chunk-IsSound file cs marked o (fetch_chunk env rested o) (λ _. right)
          (mark-IsSound file cs s (o ∷ []) v) in
      let fetched =
        store_chunk-IsClean s o (fetch_chunk env rested o) ok v
          (record { healthy = clean.healthy; idle = refl }) in
      elim (Option-cases (cached s o)) [
        | inr (c, e) ↦
            let fine = clean.healthy o c e in
            rw (e, get_chunk) (v, clean, of_chunk-found c fine ∙ ap found (v.right o c e fine))
        | inl miss ↦
            rw (miss, clean.idle, get_chunk, contains)
              (rw (q.alone o marked) (sound.0, fetched.0, fetched.1 ∙ ap found right))
      ]

  -- The end of a read of `len` bytes from `off` on.
  abbrev IsFull : ℕ → ℕ → Read → Type 0
  IsFull off len r = r ≡ returns (take len (drop off file)) none

  round-past :
      (s : Store) (remaining current : ℕ) (out : List ℕ)
      → leb s.size current ≡ true
      → 0 < length out
      → round env s remaining current out ≡ (s, ends (returns out none))
  unfolding round
  round-past s remaining current out past some_out = ground arith

  -- Before the end of the file a round copies bytes of the file.
  round-copies :
      (s : Store) (off len remaining current : ℕ) (out : List ℕ)
      → IsSound file cs s
      → IsClean s
      → 0 < remaining
      → leb s.size current ≡ false
      → (n : ℕ) × (b : List ℕ) × ((round env s remaining current out).1 ≡ copies n b)
        × IsRound file off len remaining current (copies n b)
        × IsSound file cs (round env s remaining current out).0
        × IsClean (round env s remaining current out).0
  unfolding round
  round-copies s off len remaining current out v w more inner =
      let start = current / s.chunk_size * s.chunk_size in
      let inside : current < length file = rw (← v.sized) (leb-false→lt _ _ inner) in
      let (low, high) = chunk_start current s.chunk_size (rw v.chunked v.positive) in
      let (sound, clean, got) = get_chunk-found s start (omega arith) v w in
      let (n, b, e, good) =
        copy_from-IsRound file off len remaining current start cs more low (rw (← v.chunked) high)
          inside in
      (n, b, rw (inner, got) e, good, rw inner sound, rw inner clean)

  read_loop-IsFull :
      (fuel : ℕ) (s : Store) (off len remaining current : ℕ) (out : List ℕ)
      → IsSound file cs s
      → IsClean s
      → remaining < fuel
      → length out + remaining ≡ len
      → (0 < length out) ⊎ (off < length file)
      → IsCopied file off len current out
      → IsFull off len (read_loop fuel env s remaining current out).1
  unfolding read_loop
  read_loop-IsFull zero s off len remaining current out v w enough sum some_out c =
      absurd (omega arith)
  read_loop-IsFull (suc fuel) s off len remaining current out v w enough sum some_out c =
      elim (Bool-cases (ltb 0 remaining)) [
        | inr done ↦
            let all : length out ≡ len = omega (arith, ltb-false→le 0 remaining done) in
            rw (done, read_loop)
              (ap (λ r. returns r none) (c.1 ∙ ap (λ n. take n (drop off file)) all))
        | inl more ↦ elim (Bool-cases (leb s.size current)) [
          | inl past ↦
              let beyond : length file ≤ current = rw (← v.sized) (leb→le _ _ past) in
              let rest : length (drop off file) ≡ length file - off = length-drop off file in
              rw (more, round-past s remaining current out past (omega arith), read_loop)
                (ap (λ r. returns r none)
                  (c.1
                    ∙ take_of_length-le (length out) (drop off file) (omega (arith, rest))
                    ∙ sym (take_of_length-le len (drop off file) (omega (arith, rest)))))
          | inr inner ↦
              let (n, b, e, (size, least, most, cut), sound, clean) =
                round-copies s off len remaining current out v w (ltb→lt _ _ more) inner in
              rw (more, e, read_loop)
                (read_loop-IsFull fuel _ off len (remaining - n) (current + n) (out ++ b) sound
                  clean (omega arith) (omega (arith, length-append out b))
                  (inl (omega (arith, length-append out b)))
                  (extend-IsCopied file off len remaining current n out b c sum size most cut))
        ]
      ]

  -- If each range is served by one of the three attempts, no context is done and no other
  -- goroutine interferes, ReadAt inside the file gives all the bytes asked for up to the end of the
  -- file, without error.
  pub read_at-IsFull :
      (s : Store) (len off fuel : ℕ)
      → IsSound file cs s
      → IsClean s
      → off < length file
      → len < fuel
      → (read_at fuel env s len off).1 ≡ returns (take len (drop off file)) none
  unfolding read_at take
  read_at-IsFull s len off fuel v w inside enough =
      rw (leb-false_of_lt s.size off (rw v.sized inside)) (
        read_loop-IsFull fuel s off len len off [] v w enough (omega arith) (inr inside)
          (omega arith, refl, omega arith))
