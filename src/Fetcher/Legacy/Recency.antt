-- ===== src/Fetcher/Legacy/Recency.antt =====
-- internal/fetcher/fetcher.go: the cache against a list of the chunks in the order of their last use.
use fuse_stream_mvp.Base.{
  ℕ, suc, ◌-◌, ◌≤◌, ◌<◌, ◌≡◌, refl, ◌∙◌, sym, ap, subst, inl, inr, true, none, some, List, [], ◌∷◌,
  ◌++◌, arith, ltb, ◌==◌, if◌then◌else◌, length, length-append, length-drop, drop, erase,
  Bool-cases, Option-cases,
}
use fuse_stream_mvp.Base.Maps.{
  Map, get, put, delete, get-put, get-delete, delete_absent, delete-IsMap, put-IsMap, IsMap, nat_eq,
}
use fuse_stream_mvp.Fetcher.Legacy.{
  cache_size, Chunk, Fetcher, empty_fetcher, update_lru, evict_from, evict_old_chunks, look_up,
  store_chunk, close, Move, looks, stores, closes, step, run,
}

-- The chunks with their offsets, the one whose last use is longest ago first.
abbrev pub Recency : Type 0
Recency = Map ℕ Chunk

abbrev pub offsets : Recency → List ℕ
offsets [] = []
offsets ((k, c) ∷ r) = k ∷ offsets r

abbrev pub newest : Recency → Recency
newest r = drop (length r - cache_size) r

-- What each move means: a use puts the chunk last, a store keeps the newest eight.
abbrev pub meaning : Move → Recency → Recency
meaning (looks k) r = elim (get k r) [ none ↦ r | some c ↦ delete k r ++ (k, c) ∷ [] ]
meaning (stores k c) r = newest (delete k r ++ (k, c) ∷ [])
meaning closes r = []

abbrev pub meanings : List Move → Recency → Recency
meanings [] r = r
meanings (m ∷ ms) r = meanings ms (meaning m r)

pub record Refines (f : Fetcher) (r : Recency) : Type 0 where
  pub order : f.lru_order ≡ offsets r
  pub chunks : (k : ℕ) → get k f.cache ≡ get k r
  pub counted : length f.cache ≡ length r
  pub bounded : length r ≤ cache_size

-- The same without the bound, with what the proof needs of the maps.
record Holds (order : List ℕ) (cache : Map ℕ Chunk) (r : Recency) : Type 0 where
  ordered : order ≡ offsets r
  same : (k : ℕ) → get k cache ≡ get k r
  counted : length cache ≡ length r
  once : IsMap r
  once_cached : IsMap cache

has-length : (k : ℕ) (m : Map ℕ Chunk) (c : Chunk) → get k m ≡ some c → 0 < length m
unfolding get
has-length k [] c e = absurd (ground arith)
has-length k (x ∷ m) c e = omega arith

-- Behind its first place a key is not there.
absent :
    (j k : ℕ) (c : Chunk) (m : Map ℕ Chunk) → (j == k) ≡ true → IsMap ((j, c) ∷ m) → get k m ≡ none
absent j k c m e u = subst (λ i. get i m ≡ none) (ground arith) u.0

length-delete :
    (k : ℕ) (m : Map ℕ Chunk)
    → IsMap m
    → length (delete k m) ≡ (elim (get k m) [ none ↦ length m | some c ↦ length m - 1 ])
unfolding get delete
length-delete k [] u = refl
length-delete k ((j, c) ∷ m) u = elim (Bool-cases (j == k)) [
  | inl is ↦ rw (is, delete_absent k m (absent j k c m is u)) (omega arith)
  | inr other ↦ elim (Option-cases (get k m)) [
    | inl missing ↦ ground (arith, length-delete k m u.1)
    | inr (d, there) ↦ ground (arith, length-delete k m u.1, has-length k m d there)
  ]
]

length-put :
    (k : ℕ) (c : Chunk) (m : Map ℕ Chunk)
    → length (put k c m) ≡ (elim (get k m) [ none ↦ suc (length m) | some d ↦ length m ])
unfolding get put
length-put k c [] = refl
length-put k c ((j, d) ∷ m) = ground (arith, length-put k c m)

offsets-delete : (k : ℕ) (r : Recency) → IsMap r → offsets (delete k r) ≡ erase k (offsets r)
unfolding get delete erase
offsets-delete k [] u = refl
offsets-delete k ((j, c) ∷ r) u = elim (Bool-cases (j == k)) [
  | inl is ↦ rw (is, delete_absent k r (absent j k c r is u)) refl
  | inr other ↦ rw other (ap (◌∷◌ j) (offsets-delete k r u.1))
]

get-snoc :
    (j k : ℕ) (c : Chunk) (r : Recency)
    → get k r ≡ none
    → get j (r ++ (k, c) ∷ []) ≡ (if k == j then some c else get j r)
unfolding get
get-snoc j k c [] u = refl
get-snoc j k c ((i, d) ∷ r) u = ground (arith, get-snoc j k c r)

snoc-IsMap : (k : ℕ) (c : Chunk) (r : Recency) → get k r ≡ none → IsMap r → IsMap (r ++ (k, c) ∷ [])
unfolding get
snoc-IsMap k c [] u v = (refl, _)
snoc-IsMap k c ((i, d) ∷ r) u v = ground (arith, get-snoc i k c r, snoc-IsMap k c r)

offsets-snoc : (k : ℕ) (c : Chunk) (r : Recency) → offsets (r ++ (k, c) ∷ []) ≡ offsets r ++ k ∷ []
offsets-snoc k c [] = refl
offsets-snoc k c ((j, d) ∷ r) = ap (◌∷◌ j) (offsets-snoc k c r)

-- A use of the offset `k`, of which the cache then has the chunk `c`.
used-length :
    (k : ℕ) (c : Chunk) {order : List ℕ} (cache cache' : Map ℕ Chunk) (r : Recency)
    → length cache' ≡ (elim (get k cache) [ none ↦ suc (length cache) | some d ↦ length cache ])
    → Holds order cache r
    → length cache' ≡ length (delete k r ++ (k, c) ∷ [])
used-length k c cache cache' r counted v =
    let snoc = length-append (delete k r) ((k, c) ∷ []) in
    let less = length-delete k r v.once in
    elim (Option-cases (get k r)) [
      | inl missing ↦ ground (arith, v.same k)
      | inr (d, there) ↦ ground (arith, v.same k, has-length k r d there)
    ]

use-Holds :
    (k : ℕ) (c : Chunk) (order : List ℕ) (cache cache' : Map ℕ Chunk) (r : Recency)
    → ((j : ℕ) → get j cache' ≡ (if k == j then some c else get j cache))
    → length cache' ≡ (elim (get k cache) [ none ↦ suc (length cache) | some d ↦ length cache ])
    → IsMap cache'
    → Holds order cache r
    → Holds (erase k order ++ k ∷ []) cache' (delete k r ++ (k, c) ∷ [])
use-Holds k c order cache cache' r now counted once v =
    let gone : get k (delete k r) ≡ none = ground (arith, get-delete k k r) in
    record {
      ordered =
          ap (λ o. erase k o ++ k ∷ []) v.ordered
          ∙ ap (λ o. o ++ k ∷ []) (sym (offsets-delete k r v.once))
          ∙ sym (offsets-snoc k c (delete k r));
      same =
          λ j. ground (arith, now j, get-snoc j k c (delete k r) gone, get-delete j k r, v.same j);
      counted = used-length k c cache cache' r counted v;
      once = snoc-IsMap k c (delete k r) gone (delete-IsMap k r v.once);
      once_cached = once;
    }

-- Without the chunk whose last use is longest ago.
evict_one-Holds :
    (k : ℕ) (c : Chunk) (r : Recency) (cache : Map ℕ Chunk)
    → Holds (k ∷ offsets r) cache ((k, c) ∷ r)
    → Holds (offsets r) (delete k cache) r
unfolding get
evict_one-Holds k c r cache v = record {
  ordered = refl;
  same = λ j. elim (Bool-cases (k == j)) [
    | inl is ↦ ground (arith, get-delete j k cache, absent k j c r is v.once)
    | inr other ↦ ground (arith, get-delete j k cache, v.same j)
  ];
  counted = ground (arith, length-delete k cache v.once_cached, v.same k, v.counted);
  once = v.once.1;
  once_cached = delete-IsMap k cache v.once_cached;
}

evict-Holds :
    (r : Recency) (cache : Map ℕ Chunk)
    → Holds (offsets r) cache r
    → Holds (evict_from (offsets r) cache).0 (evict_from (offsets r) cache).1 (newest r)
unfolding evict_from drop
evict-Holds [] cache v = v
evict-Holds ((k, c) ∷ r) cache v = elim (Bool-cases (ltb cache_size (length cache))) [
  | inl over ↦
      let e : suc (length r) - cache_size ≡ suc (length r - cache_size) =
        ground (arith, v.counted) in
      rw (over, evict_from, e, drop)
        (evict-Holds r (delete k cache) (evict_one-Holds k c r cache v))
  | inr fits ↦
      let e : suc (length r) - cache_size ≡ 0 = ground (arith, v.counted) in
      rw (fits, evict_from, e, drop) v
]

newest-length : (r : Recency) → length (newest r) ≤ cache_size
newest-length r = omega (arith, length-drop (length r - cache_size) r)

-- The state of the code beside its list.
record Follows (f : Fetcher) (r : Recency) : Type 0 where
  holds : Holds f.lru_order f.cache r
  few : length r ≤ cache_size

look_up-Follows :
    (k : ℕ) (f : Fetcher) (r : Recency)
    → Follows f r
    → Follows (look_up k f).0 (meaning (looks k) r)
unfolding look_up update_lru
look_up-Follows k f r v = elim (Option-cases (get k r)) [
  | inl missing ↦
      let e : get k f.cache ≡ none = v.holds.same k ∙ missing in rw (e, look_up, missing, meaning) v
  | inr (c, there) ↦
      let e : get k f.cache ≡ some c = v.holds.same k ∙ there in
      let now : (j : ℕ) → get j f.cache ≡ (if k == j then some c else get j f.cache) = λ j.
        elim (Bool-cases (k == j)) [
          | inl is ↦ rw is (subst (λ i. get i f.cache ≡ some c) (ground arith) e)
          | inr other ↦ rw other refl
        ] in
      let counted : length f.cache
          ≡ (elim (get k f.cache) [ none ↦ suc (length f.cache) | some d ↦ length f.cache ]) =
        rw e refl in
      let h = use-Holds k c f.lru_order f.cache f.cache r now counted v.holds.once_cached v.holds in
      rw (e, look_up, there, meaning)
        (record { holds = h; few = omega (arith, h.counted, v.holds.counted, v.few) })
]

store_chunk-Follows :
    (k : ℕ) (c : Chunk) (f : Fetcher) (r : Recency)
    → Follows f r
    → Follows (store_chunk k c f) (meaning (stores k c) r)
unfolding store_chunk evict_old_chunks update_lru
store_chunk-Follows k c f r v =
    let used =
      use-Holds k c f.lru_order f.cache (put k c f.cache) r (λ j. get-put j k c f.cache)
        (length-put k c f.cache) (put-IsMap k c f.cache v.holds.once_cached) v.holds in
    let r' = delete k r ++ (k, c) ∷ [] in
    let evicted =
      evict-Holds r' (put k c f.cache)
        (subst (λ o. Holds o (put k c f.cache) r') used.ordered used) in
    record {
      holds =
          subst
            (λ o.
              Holds (evict_from o (put k c f.cache)).0 (evict_from o (put k c f.cache)).1
                (newest r'))
            (sym used.ordered) evicted;
      few = newest-length r';
    }

empty-Follows : (size : ℕ) → Follows (empty_fetcher size) []
empty-Follows size = record {
  holds = record { ordered = refl; same = λ k. refl; counted = refl; once = _; once_cached = _ };
  few = omega arith;
}

step-Follows :
    (m : Move) (f : Fetcher) (r : Recency) → Follows f r → Follows (step m f) (meaning m r)
unfolding step close
step-Follows (looks k) f r v = look_up-Follows k f r v
step-Follows (stores k c) f r v = store_chunk-Follows k c f r v
step-Follows closes f r v = empty-Follows f.size

run-Follows :
    (ms : List Move) (f : Fetcher) (r : Recency) → Follows f r → Follows (run ms f) (meanings ms r)
unfolding run
run-Follows [] f r v = v
run-Follows (m ∷ ms) f r v = run-Follows ms (step m f) (meaning m r) (step-Follows m f r v)

-- Whatever the calls of getChunk look up and store, in any order, and whenever Close runs: the cache
-- has the chunks of a list in the order of their last use, where a use moves a chunk to the end and a
-- store keeps the last eight; lruOrder names their offsets in this order.
pub run-IsLru : (size : ℕ) (ms : List Move) → Refines (run ms (empty_fetcher size)) (meanings ms [])
run-IsLru size ms =
    let v = run-Follows ms (empty_fetcher size) [] (empty-Follows size) in
    record {
      order = v.holds.ordered;
      chunks = v.holds.same;
      counted = v.holds.counted;
      bounded = v.few;
    }
