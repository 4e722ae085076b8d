-- ===== src/Tests/RangeLru.antt =====
-- internal/fetcher/store_rangelru.go: a file of ten bytes in chunks of four, two of them cached.
use fuse_stream_mvp.Base.{
  ℕ, suc, ◌-◌, ◌≡◌, refl, inl, inr, true, false, none, some, List, [], ◌∷◌, arith, take, drop,
  contains,
}
use fuse_stream_mvp.Base.Maps.{get, nat_eq}
use fuse_stream_mvp.Fetcher.RangeLru.{
  ctx_done, Chunk, Store, Env, do_range_request, cached, get_chunk, fails, returns, out_of_fuel,
  read_at,
}
use fuse_stream_mvp.Fetcher.RangeLru.Cache.{IsCoherent, reads, step, step-IsCoherent}
use fuse_stream_mvp.Fetcher.RangeLru.Chunks.{IsHonest, IsSound}
use fuse_stream_mvp.Fetcher.RangeLru.Reads.{IsAnswer, read_at-IsAnswer}
use fuse_stream_mvp.Fetcher.RangeLru.Complete.{IsQuiet, IsClean, read_at-IsFull}
use fuse_stream_mvp.Fetcher.RangeLru.Faults.{
  Starts, get_chunks, fetch_chunk-done, failed_chunk-stays, read_at_ignored_range,
  read_at_empty_body,
}
use fuse_stream_mvp.Fs.{Fs, Handle}
use fuse_stream_mvp.Fs.Tree.{bytes, read}
use fuse_stream_mvp.Fs.Safety.{new_fs}
use fuse_stream_mvp.Base.{◌<◌}
use fuse_stream_mvp.Base.Words.{pos, negsuc}
use fuse_stream_mvp.Fetcher.RangeLru.New.{
  Options, Head, created, bytes_unit, empty_store, new_range_lru_store, new_range_lru_store-IsSound,
}
use fuse_stream_mvp.Fs.Reading.{answer_of, read-IsFull}
use fuse_stream_mvp.Fetcher.RangeLru.Flights.{Move, looks, joins, stores, signals, no_flights, run}
use fuse_stream_mvp.Fetcher.RangeLru.Flights.Single.{IsSingle, run-IsSingle}

abbrev ten_bytes : List ℕ
ten_bytes = 10 ∷ 11 ∷ 12 ∷ 13 ∷ 14 ∷ 15 ∷ 16 ∷ 17 ∷ 18 ∷ 19 ∷ []

abbrev new_store : Store
new_store = record {
  size = 10;
  chunk_size = 4;
  cache_capacity = 2;
  cache = some [];
  lru_order = [];
  active_reads = [];
  ref_count = 0;
}

-- Nobody else is at the store, no context is done, and the server answers by `body`.
abbrev calm_env : ℕ → (ℕ → ℕ → List ℕ) → Env
calm_env status body = record {
  semaphore_done = λ o. false;
  timer_done = λ o k. false;
  wait_done = λ o. false;
  exchange = λ k start end. some (record { status = status; body = some (body start end) });
  meanwhile = λ o s. s;
}

abbrev ranges : Env
ranges = calm_env 206 (λ start end. take (suc end - start) (drop start ten_bytes))

abbrev whole_files : Env
whole_files = calm_env 200 (λ start end. ten_bytes)

abbrev empty_bodies : Env
empty_bodies = calm_env 206 (λ start end. [])

abbrev done_env : Env
done_env = record ranges { semaphore_done = λ o. true }

ranges-IsHonest : IsHonest ten_bytes ranges
unfolding do_range_request
ranges-IsHonest attempt start end b h e = cc

new_store-IsCoherent : IsCoherent new_store
unfolding cached contains get
new_store-IsCoherent = record { bounded = omega arith; distinct = tt; agrees = λ k. refl }

new_store-IsSound : IsSound ten_bytes 4 new_store
unfolding cached get
new_store-IsSound = record {
  sized = refl;
  chunked = refl;
  positive = omega arith;
  opened = ([], refl);
  right = λ k c e. absurd (ground arith);
}

new_store-IsClean : IsClean new_store
unfolding cached get
new_store-IsClean = record { healthy = λ k c e. absurd (ground arith); idle = refl }

ranges-IsQuiet : IsQuiet ten_bytes ranges
unfolding do_range_request
ranges-IsQuiet = record {
  honest = ranges-IsHonest;
  served = λ start end h. (0, take (suc end - start) (drop start ten_bytes), omega arith, refl);
  unhurried = λ o k. (refl, refl);
  alone = λ o s. refl;
}

new_store-Starts : (env : Env) → ((s : Store) → env.meanwhile 4 s ≡ s) → Starts env new_store 4
unfolding cached get
new_store-Starts env alone = record {
  coherent = new_store-IsCoherent;
  opened = ([], refl);
  roomy = omega arith;
  missing = refl;
  idle = refl;
  alone = alone;
}

step-IsCoherent_example : IsCoherent (step new_store (reads 9 ranges 7 2))
step-IsCoherent_example =
    step-IsCoherent new_store (reads 9 ranges 7 2) (λ o s v. v) new_store-IsCoherent

read_at-IsAnswer_example :
    IsSound ten_bytes 4 (read_at 8 ranges new_store 7 2).0
    × IsAnswer ten_bytes 2 7 (read_at 8 ranges new_store 7 2).1
read_at-IsAnswer_example =
    read_at-IsAnswer ten_bytes 4 ranges ranges-IsHonest (λ o s v. v) new_store 7 2 8 (omega arith)
      new_store-IsSound

read_at-IsFull_example :
    (read_at 8 ranges new_store 7 2).1 ≡ returns (12 ∷ 13 ∷ 14 ∷ 15 ∷ 16 ∷ 17 ∷ 18 ∷ []) none
unfolding take drop
read_at-IsFull_example =
    read_at-IsFull ten_bytes 4 ranges ranges-IsQuiet new_store 7 2 8 new_store-IsSound
      new_store-IsClean (omega arith) (omega arith)

failed_chunk-stays_example :
    ((get_chunk done_env new_store 4).1 ≡ fails ctx_done)
    × (get_chunks (ranges ∷ ranges ∷ []) (get_chunk done_env new_store 4).0 4
        ≡ ((get_chunk done_env new_store 4).0, fails ctx_done ∷ fails ctx_done ∷ []))
failed_chunk-stays_example =
    failed_chunk-stays done_env (ranges ∷ ranges ∷ []) new_store 4 ctx_done
      (new_store-Starts done_env (λ s. refl)) (fetch_chunk-done done_env new_store 4 refl)

read_at_ignored_range_example :
    (read_at 2 whole_files new_store 3 5).1 ≡ returns (11 ∷ 12 ∷ 13 ∷ []) none
unfolding take drop
read_at_ignored_range_example =
    read_at_ignored_range whole_files new_store ten_bytes 3 5 0
      (record {
        starts = new_store-Starts whole_files (λ s. refl);
        free = refl;
        response = record { status = 200; body = some ten_bytes };
        sent = refl;
        accepted = inr refl;
        body = refl;
      })
      (omega arith) (omega arith) (omega arith)

read_at_empty_body_example : (read_at 100 empty_bodies new_store 3 4).1 ≡ out_of_fuel
read_at_empty_body_example =
    read_at_empty_body empty_bodies new_store 3 4 100 refl
      (record {
        starts = new_store-Starts empty_bodies (λ s. refl);
        free = refl;
        response = record { status = 206; body = some [] };
        sent = refl;
        accepted = inl refl;
        body = refl;
      })
      (omega arith) (omega arith)

abbrev first_chunk : Chunk
first_chunk = record { offset = 0; content = take 4 ten_bytes; err = none }

abbrev second_chunk : Chunk
second_chunk = record { offset = 4; content = take 4 (drop 4 ten_bytes); err = none }

abbrev full_store : Store
full_store = record new_store {
  cache = some ((0, first_chunk) ∷ (4, second_chunk) ∷ []);
  lru_order = 0 ∷ 4 ∷ [];
}

full_store-Starts : Starts ranges full_store 8
unfolding cached get contains
full_store-Starts = record {
  coherent = record {
    bounded = omega arith;
    distinct = (refl, (refl, tt));
    agrees = λ k. ground arith;
  };
  opened = ((0, first_chunk) ∷ (4, second_chunk) ∷ [], refl);
  roomy = omega arith;
  missing = refl;
  idle = refl;
  alone = λ s. refl;
}

abbrev handle : Handle
handle = record { store = 1; path = []; staged = [] }

abbrev one_handle : Fs
one_handle = record (new_fs false false) { handles = (1, handle) ∷ [] }

one_handle-get : get 1 one_handle.handles ≡ some handle
unfolding get
one_handle-get = refl

read-IsFull_example :
    read (λ st. answer_of (read_at 8 ranges new_store 7 6).1) 1 one_handle ≡ bytes 4
read-IsFull_example =
    read-IsFull ten_bytes 4 ranges new_store one_handle 1 handle 7 6 8 ranges-IsQuiet
      new_store-IsSound new_store-IsClean one_handle-get (omega arith)

abbrev options : Options
options = record { chunk_size = pos 4; max_concurrent_requests = pos 0; cache_size = negsuc 2 }

abbrev head : Head
head = record { status = 200; accept_ranges = bytes_unit }

new_range_lru_store_created :
    new_range_lru_store (pos 10) options (some head) ≡ created (empty_store 10 options)
unfolding new_range_lru_store
new_range_lru_store_created = refl

new_range_lru_store-IsSound_example :
    IsSound ten_bytes 4 (empty_store 10 options)
    × IsCoherent (empty_store 10 options)
    × IsClean (empty_store 10 options)
    × (0 < (empty_store 10 options).cache_capacity)
new_range_lru_store-IsSound_example =
    new_range_lru_store-IsSound ten_bytes (pos 10) options (some head) (empty_store 10 options) refl
      new_range_lru_store_created

abbrev shared_moves : List Move
shared_moves = looks 0 ∷ looks 0 ∷ joins 0 ∷ joins 1 ∷ stores 0 ∷ signals 0 ∷ []

run-IsSingle_example : IsSingle (run shared_moves no_flights)
run-IsSingle_example = run-IsSingle shared_moves
