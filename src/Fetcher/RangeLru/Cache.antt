-- ===== src/Fetcher/RangeLru/Cache.antt =====
-- internal/fetcher/store_rangelru.go: the cache and its eviction order.
use fuse_stream_mvp.Base.{
  ℕ, zero, suc, ◌+◌, ◌-◌, ◌*◌, ◌/◌, ◌≤◌, ◌≡◌, refl, inl, inr, Bool, true, false, Option, none, some,
  List, [], ◌∷◌, ◌++◌, arith, ltb, Bool-cases, Option-cases, ltb-false→le, length, contains, erase,
  drop, IsDistinct, contains-append, contains-erase_ne, contains-erase_self, erase-IsDistinct,
  snoc-IsDistinct,
}
use fuse_stream_mvp.Base.Maps.{Map, get, put, delete, get-put, get-delete, nat_eq}
use fuse_stream_mvp.Fetcher.RangeLru.{
  Chunk, Store, Env, evict, update_lru, of_chunk, panics, store_chunk, cached, await_chunk,
  get_chunk, Round-cases, round, read_loop, read_at, inc_ref, dec_ref, close, fetch_chunk,
}

abbrev pub is_some {ℓ} : {A : Type ℓ} → Option A → Bool
is_some none = false
is_some (some a) = true

-- The order names exactly the cached offsets.
abbrev pub Agrees : List ℕ → Map ℕ Chunk → Type 0
Agrees order m = (k : ℕ) → contains k order ≡ is_some (get k m)

abbrev pub IsBounded : ℕ → List ℕ × Map ℕ Chunk → Type 0
IsBounded capacity (order, m) = (length order ≤ capacity) × IsDistinct order × Agrees order m

Agrees-delete :
    (o : ℕ) (rest : List ℕ) (m : Map ℕ Chunk)
    → contains o rest ≡ false
    → Agrees (o ∷ rest) m
    → Agrees rest (delete o m)
unfolding contains
Agrees-delete o rest m n a k = ground (arith, get-delete k o m, a k)

pub evict-IsBounded :
    (capacity : ℕ) (order : List ℕ) (m : Map ℕ Chunk)
    → IsDistinct order
    → Agrees order m
    → IsBounded capacity (evict capacity order m)
unfolding evict
evict-IsBounded capacity [] m d a = (omega arith, tt, a)
evict-IsBounded capacity (o ∷ rest) m d a = elim (Bool-cases (ltb capacity (length (o ∷ rest)))) [
  | inl over ↦
      rw (over, evict)
        (evict-IsBounded capacity rest (delete o m) d.1 (Agrees-delete o rest m d.0 a))
  | inr fits ↦ rw (fits, evict) (ltb-false→le _ _ fits, d, a)
]

-- Every chunk in the cache and its place in the order.
pub record IsCoherent (s : Store) : Type 0 where
  pub bounded : length s.lru_order ≤ s.cache_capacity
  pub distinct : IsDistinct s.lru_order
  pub agrees : (k : ℕ) → contains k s.lru_order ≡ is_some (cached s k)

pub Agrees-put :
    (o : ℕ) (c : Chunk) (order : List ℕ) (m : Map ℕ Chunk)
    → IsDistinct order
    → Agrees order m
    → Agrees (erase o order ++ o ∷ []) (put o c m)
unfolding contains
Agrees-put o c order m d a k = ground (
  arith,
  contains-append k (erase o order) (o ∷ []),
  get-put k o c m,
  contains-erase_ne k o order,
  contains-erase_self o order d,
  a k,
)

update_lru-IsBounded :
    (capacity o : ℕ) (c : Chunk) (order : List ℕ) (m : Map ℕ Chunk)
    → IsDistinct order
    → Agrees order m
    → IsBounded capacity (update_lru capacity o order (put o c m))
unfolding update_lru
update_lru-IsBounded capacity o c order m d a =
    evict-IsBounded capacity (erase o order ++ o ∷ []) (put o c m)
      (snoc-IsDistinct o (erase o order) (erase-IsDistinct o order d)
        (contains-erase_self o order d))
      (Agrees-put o c order m d a)

pub evict-order :
    (capacity : ℕ) (order : List ℕ) (m : Map ℕ Chunk)
    → (evict capacity order m).0 ≡ drop (length order - capacity) order
unfolding evict drop
evict-order capacity [] m = ground arith
evict-order capacity (o ∷ rest) m = elim (Bool-cases (ltb capacity (length (o ∷ rest)))) [
  | inl over ↦
      let e : length (o ∷ rest) - capacity ≡ suc (length rest - capacity) = ground arith in
      rw (over, evict, e, drop) (evict-order capacity rest (delete o m))
  | inr fits ↦
      let e : length (o ∷ rest) - capacity ≡ 0 = ground arith in rw (fits, evict, e, drop) refl
]

evict-contains :
    (capacity k : ℕ) (order : List ℕ) (m : Map ℕ Chunk)
    → contains k (evict capacity order m).0 ≡ true
    → contains k order ≡ true
unfolding evict contains
evict-contains capacity k [] m h = h
evict-contains capacity k (o ∷ rest) m h =
    ground (arith, evict-contains capacity k rest (delete o m))

-- What is left is as it was.
pub evict-get :
    (capacity k : ℕ) (order : List ℕ) (m : Map ℕ Chunk)
    → IsDistinct order
    → contains k (evict capacity order m).0 ≡ true
    → get k (evict capacity order m).1 ≡ get k m
unfolding evict contains
evict-get capacity k [] m d h = refl
evict-get capacity k (o ∷ rest) m d h = ground (
  arith,
  evict-contains capacity k rest (delete o m),
  evict-get capacity k rest (delete o m) d.1,
  get-delete k o m,
)

pub store_chunk_open :
    (s : Store) (o : ℕ) (c : Chunk) (m : Map ℕ Chunk)
    → s.cache ≡ some m
    → let r = update_lru s.cache_capacity o s.lru_order (put o c m) in
      store_chunk s o c ≡ (
        record s { cache = some r.1; lru_order = r.0; active_reads = erase o s.active_reads },
        of_chunk c,
      )
unfolding store_chunk
store_chunk_open s o c m e = rw (e, store_chunk)

store_chunk_closed :
    (s : Store) (o : ℕ) (c : Chunk) → s.cache ≡ none → store_chunk s o c ≡ (s, panics)
unfolding store_chunk
store_chunk_closed s o c e = ground arith

-- Storing a chunk keeps the order bounded by the capacity and without repetition, and the cache
-- in agreement with it.
pub store_chunk-IsCoherent :
    (s : Store) (o : ℕ) (c : Chunk) → IsCoherent s → IsCoherent (store_chunk s o c).0
unfolding cached
store_chunk-IsCoherent s o c v = elim (Option-cases s.cache) [
  | inl closed ↦ rw (store_chunk_closed s o c closed) v
  | inr (m, e) ↦
      let b =
        update_lru-IsBounded s.cache_capacity o c s.lru_order m v.distinct
          (λ k. ground (arith, v.agrees k)) in
      rw (store_chunk_open s o c m e) (record { bounded = b.0; distinct = b.1; agrees = b.2 })
]

-- What other goroutines do between two critical sections keeps the cache coherent.
abbrev pub Keeps {κ} : (Store → Type κ) → Env → Type κ
Keeps P env = (o : ℕ) (s : Store) → P s → P (env.meanwhile o s)

pub mark-IsCoherent :
    (s : Store) (active : List ℕ) → IsCoherent s → IsCoherent (record s { active_reads = active })
unfolding cached
mark-IsCoherent s active v = record {
  bounded = v.bounded;
  distinct = v.distinct;
  agrees = v.agrees;
}

get_chunk-IsCoherent :
    (env : Env) (s : Store) (o : ℕ)
    → Keeps IsCoherent env
    → IsCoherent s
    → IsCoherent (get_chunk env s o).0
unfolding get_chunk await_chunk
get_chunk-IsCoherent env s o keeps v =
    let marked : Store = record s { active_reads = o ∷ s.active_reads } in
    let kept : IsCoherent (env.meanwhile o marked) =
      keeps o marked (mark-IsCoherent s (o ∷ s.active_reads) v) in
    ground (
      arith,
      keeps o s v,
      store_chunk-IsCoherent (env.meanwhile o marked) o (fetch_chunk env s o) kept,
    )

round-IsCoherent :
    (env : Env) (s : Store) (remaining current : ℕ) (out : List ℕ)
    → Keeps IsCoherent env
    → IsCoherent s
    → IsCoherent (round env s remaining current out).0
unfolding round
round-IsCoherent env s remaining current out keeps v =
    ground (arith, get_chunk-IsCoherent env s (current / s.chunk_size * s.chunk_size) keeps v)

read_loop-IsCoherent :
    (fuel : ℕ) (env : Env) (s : Store) (remaining current : ℕ) (out : List ℕ)
    → Keeps IsCoherent env
    → IsCoherent s
    → IsCoherent (read_loop fuel env s remaining current out).0
unfolding read_loop
read_loop-IsCoherent zero env s remaining current out keeps v = v
read_loop-IsCoherent (suc fuel) env s remaining current out keeps v =
    let kept = round-IsCoherent env s remaining current out keeps v in
    elim (Bool-cases (ltb 0 remaining)) [
      | inr done ↦ rw (done, read_loop) v
      | inl more ↦ elim (Round-cases (round env s remaining current out).1) [
        | inl (r, e) ↦ rw (more, e, read_loop) kept
        | inr (n, b, e) ↦
            rw (more, e, read_loop)
              (read_loop-IsCoherent fuel env _ (remaining - n) (current + n) (out ++ b) keeps kept)
      ]
    ]

-- The calls of the store's interface.
pub data Call : Type 0 where
  reads : (fuel : ℕ) → Env → (len off : ℕ) → Call
  adds_ref drops_ref closes : Call

unfoldable pub step : Store → Call → Store
step s (reads fuel env len off) = (read_at fuel env s len off).0
step s adds_ref = inc_ref s
step s drops_ref = (dec_ref s).0
step s closes = close s

abbrev pub Interferes : Call → Type 0
Interferes (reads fuel env len off) = Keeps IsCoherent env
Interferes adds_ref = Unit {0}
Interferes drops_ref = Unit {0}
Interferes closes = Unit {0}

inc_ref-IsCoherent : (s : Store) → IsCoherent s → IsCoherent (inc_ref s)
unfolding inc_ref cached get contains
inc_ref-IsCoherent s v = record { bounded = v.bounded; distinct = v.distinct; agrees = v.agrees }

dec_ref-IsCoherent : (s : Store) → IsCoherent s → IsCoherent (dec_ref s).0
unfolding dec_ref cached get contains
dec_ref-IsCoherent s v = ground arith

close-IsCoherent : (s : Store) → IsCoherent (close s)
unfolding close cached contains
close-IsCoherent s = ground arith

-- Every call keeps the cache coherent: at most `cache_capacity` chunks, each at one place of the
-- order, and nothing else in the order.
pub step-IsCoherent : (s : Store) (c : Call) → Interferes c → IsCoherent s → IsCoherent (step s c)
unfolding step read_at
step-IsCoherent s (reads fuel env len off) k v =
    ground (arith, read_loop-IsCoherent fuel env s len off [] k v)
step-IsCoherent s adds_ref k v = inc_ref-IsCoherent s v
step-IsCoherent s drops_ref k v = dec_ref-IsCoherent s v
step-IsCoherent s closes k v = close-IsCoherent s
