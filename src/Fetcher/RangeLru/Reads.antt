-- ===== src/Fetcher/RangeLru/Reads.antt =====
-- internal/fetcher/store_rangelru.go: ReadAt against the bytes of the remote file.
use fuse_stream_mvp.Base.{
  ℕ, zero, suc, ◌+◌, ◌-◌, ◌*◌, ◌/◌, ◌≤◌, ◌<◌, ◌≡◌, refl, inl, inr, ◌∙◌, sym, ap, ap₂, subst, none,
  some, List, [], ◌∷◌, ◌++◌, arith, leb, ltb, length, take, drop, min, length-take, length-drop,
  length-append, drop-take, take-take, drop-drop, take-append-take-drop, Bool-cases, if◌then◌else◌,
  ltb-false_of_le, leb-false→lt, ltb→lt,
}
use fuse_stream_mvp.Fetcher.RangeLru.{
  Error, eof, Store, Env, Got, found, fails, panics, get_chunk, Read, returns, panicked,
  out_of_fuel, Round, ends, copies, Round-cases, cut_short, copy_from, use_chunk, round, read_loop,
  read_at,
}
use fuse_stream_mvp.Fetcher.RangeLru.Cache.{Keeps}
use fuse_stream_mvp.Fetcher.RangeLru.Chunks.{
  IsHonest, IsSound, IsRight, chunk_at, get_chunk-IsSound,
}

-- The bytes given are those of the file from `off` on, at most `len`; an error comes with none.
abbrev pub IsAnswer : List ℕ → ℕ → ℕ → Read → Type 0
IsAnswer file off len (returns r none) = (r ≡ take (length r) (drop off file)) × (length r ≤ len)
IsAnswer file off len (returns r (some e)) = r ≡ []
IsAnswer file off len panicked = ⊥
IsAnswer file off len out_of_fuel = ⊥

-- What one round may do at `current`.
abbrev pub IsRound : List ℕ → ℕ → ℕ → ℕ → ℕ → Round → Type 0
IsRound file off len remaining current (ends r) = IsAnswer file off len r
IsRound file off len remaining current (copies n b) =
    (length b ≡ n) × (0 < n) × (n ≤ remaining) × (b ≡ take n (drop current file))

pub chunk_start :
    (current cs : ℕ) → 0 < cs → (current / cs * cs ≤ current) × (current < current / cs * cs + cs)
chunk_start current cs h = (omega arith, omega arith)

-- Inside the chunk the round copies what is asked for, or what is left of the chunk.
copy_from-copies :
    (b : List ℕ) (o remaining : ℕ)
    → o < length b
    → let n = if ltb (length b - o) remaining then length b - o else remaining in
      copy_from b o remaining ≡ copies n (take n (drop o b))
unfolding copy_from
copy_from-copies b o remaining h = rw (ltb-false_of_le (length b) o (omega arith))

-- A cut of the chunk is a cut of the file.
take-drop-chunk_at :
    (file : List ℕ) (n o start current cs : ℕ)
    → o + start ≡ current
    → n + o ≤ cs
    → take n (drop o (chunk_at file cs start)) ≡ take n (drop current file)
take-drop-chunk_at file n o start current cs e h =
    ap (take n) (drop-take o cs (cs - o) (drop start file) (omega arith))
    ∙ take-take n (cs - o) (drop o (drop start file)) (omega arith)
    ∙ ap (take n) (drop-drop o start current file e)

module _ (file : List ℕ) where
  pub copy_from-IsRound :
      (off len remaining current start cs : ℕ)
      → 0 < remaining
      → start ≤ current
      → current < start + cs
      → current < length file
      → (n : ℕ) × (b : List ℕ) × (copy_from (chunk_at file cs start) (current - start) remaining
          ≡ copies n b)
        × IsRound file off len remaining current (copies n b)
  copy_from-IsRound off len remaining current start cs more low high inside =
      let b = chunk_at file cs start in
      let o : ℕ = current - start in
      let n = if ltb (length b - o) remaining then length b - o else remaining in
      let size : length b ≡ min cs (length file - start) =
        length-take cs (drop start file) ∙ ap (min cs) (length-drop start file) in
      let within : o < length b = omega arith in
      let (least, most, fits) = bounds (length b - o) remaining (omega arith) more in
      let cut : take n (drop o b) ≡ take n (drop current file) =
        take-drop-chunk_at file n o start current cs (omega arith) (omega arith) in
      (
        n,
        take n (drop o b),
        copy_from-copies b o remaining within,
        (length-take n (drop o b) ∙ omega (arith, length-drop o b), least, most, cut),
      )
    where
      bounds :
          (a r : ℕ)
          → 0 < a
          → 0 < r
          → (0 < (if ltb a r then a else r))
            × ((if ltb a r then a else r) ≤ r)
            × ((if ltb a r then a else r) ≤ a)
      bounds a r p q = ground arith

  -- The bytes copied so far: those of the file between `off` and `current`.
  abbrev pub IsCopied : ℕ → ℕ → ℕ → List ℕ → Type 0
  IsCopied off len current out =
      (current ≡ off + length out) × (out ≡ take (length out) (drop off file)) × (length out ≤ len)

  pub extend-IsCopied :
      (off len remaining current n : ℕ) (out b : List ℕ)
      → IsCopied off len current out
      → length out + remaining ≡ len
      → length b ≡ n
      → n ≤ remaining
      → b ≡ take n (drop current file)
      → IsCopied off len (current + n) (out ++ b)
  extend-IsCopied off len remaining current n out b (at, copied, fits) sum size most cut =
      let k : ℕ = length (out ++ b) in
      let total : length out + n ≡ k = omega (arith, length-append out b) in
      let source : drop current file ≡ drop (length out) (drop off file) =
        sym (drop-drop (length out) off current file (omega arith)) in
      let joined : out ++ b ≡ take (length out) (drop off file) ++ take n (drop current file) =
        ap₂ ◌++◌ copied cut in
      (
        omega (arith, total),
        joined
            ∙ ap (λ l. take (length out) (drop off file) ++ take n l) source
            ∙ take-append-take-drop (length out) n k (drop off file) total,
        omega (arith, total),
      )

  cut_short-IsAnswer :
      (off len current : ℕ) (out : List ℕ) (e : Error)
      → IsCopied off len current out
      → IsAnswer file off len (cut_short out e)
  cut_short-IsAnswer off len current [] e c = refl
  cut_short-IsAnswer off len current (x ∷ out) e c = ground arith

  use_chunk-IsRound :
      (off len remaining current start cs : ℕ) (out : List ℕ) (g : Got)
      → IsRight file cs start g
      → 0 < remaining
      → start ≤ current
      → current < start + cs
      → current < length file
      → IsCopied off len current out
      → IsRound file off len remaining current (use_chunk g out (current - start) remaining)
  use_chunk-IsRound off len remaining current start cs out (found b) r more low high inside c =
      let (n, b', e, good) =
        copy_from-IsRound off len remaining current start cs more low high inside in
      rw (r, e) good
  use_chunk-IsRound off len remaining current start cs out (fails e) r more low high inside c =
      cut_short-IsAnswer off len current out e c
  use_chunk-IsRound off len remaining current start cs out panics r more low high inside c =
      absurd r

  module _ (cs : ℕ) (env : Env) (honest : IsHonest file env)
      (keeps : Keeps (IsSound file cs) env) where
    round-IsRound :
        (s : Store) (off len remaining current : ℕ) (out : List ℕ)
        → IsSound file cs s
        → 0 < remaining
        → IsCopied off len current out
        → IsSound file cs (round env s remaining current out).0
          × IsRound file off len remaining current (round env s remaining current out).1
    unfolding round
    round-IsRound s off len remaining current out v more c =
        elim (Bool-cases (leb s.size current)) [
          | inl past ↦ rw past (v, cut_short-IsAnswer off len current out eof c)
          | inr inner ↦
              let start = current / s.chunk_size * s.chunk_size in
              let inside : current < length file = rw (← v.sized) (leb-false→lt _ _ inner) in
              let (low, high) = chunk_start current s.chunk_size (rw v.chunked v.positive) in
              let (sound, right) =
                get_chunk-IsSound file cs env s start honest keeps (omega arith) v in
              rw inner (
                sound,
                use_chunk-IsRound off len remaining current start cs out (get_chunk env s start).1
                    right more low (rw (← v.chunked) high) inside c,
              )
        ]

    read_loop-IsAnswer :
        (fuel : ℕ) (s : Store) (off len remaining current : ℕ) (out : List ℕ)
        → IsSound file cs s
        → remaining < fuel
        → length out + remaining ≡ len
        → IsCopied off len current out
        → IsSound file cs (read_loop fuel env s remaining current out).0
          × IsAnswer file off len (read_loop fuel env s remaining current out).1
    unfolding read_loop
    read_loop-IsAnswer zero s off len remaining current out v enough sum c = absurd (omega arith)
    read_loop-IsAnswer (suc fuel) s off len remaining current out v enough sum c =
        elim (Bool-cases (ltb 0 remaining)) [
          | inr done ↦ rw (done, read_loop) (v, (c.1, c.2))
          | inl more ↦
              let (sound, turn) =
                round-IsRound s off len remaining current out v (ltb→lt _ _ more) c in
              elim (Round-cases (round env s remaining current out).1) [
                | inl (r, e) ↦
                    rw (more, e, read_loop)
                      (sound, subst (IsRound file off len remaining current) e turn)
                | inr (n, b, e) ↦
                    let (size, least, most, cut) =
                      subst (IsRound file off len remaining current) e turn in
                    rw (more, e, read_loop)
                      (read_loop-IsAnswer fuel _ off len (remaining - n) (current + n) (out ++ b)
                        sound (omega arith) (omega (arith, length-append out b))
                        (extend-IsCopied off len remaining current n out b c sum size most cut))
              ]
        ]

    -- ReadAt on an open store of the file, over a server that honours Range: it ends within len + 1
    -- rounds without a panic, its bytes are those of the file from `off` on, an error comes with no
    -- byte, and the store is sound again. This holds however requests fail, whenever the context
    -- is done, and whatever sound changes other goroutines make meanwhile.
    pub read_at-IsAnswer :
        (s : Store) (len off fuel : ℕ)
        → len < fuel
        → IsSound file cs s
        → IsSound file cs (read_at fuel env s len off).0
          × IsAnswer file off len (read_at fuel env s len off).1
    unfolding read_at take
    read_at-IsAnswer s len off fuel enough v = ground (
      arith,
      read_loop-IsAnswer fuel s off len len off [] v enough (omega arith)
          (omega arith, refl, omega arith),
    )
