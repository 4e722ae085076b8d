-- ===== src/Tests/Legacy.antt =====
-- internal/fetcher/fetcher.go: nine chunks in a cache of eight, and a hit between them.
use fuse_stream_mvp.Base.{◌≡◌, refl, none, List, [], ◌∷◌, ◌++◌, false, length, erase}
use fuse_stream_mvp.Base.Maps.{get, put, delete}
use fuse_stream_mvp.Fetcher.Legacy.{
  Chunk, empty_fetcher, Move, looks, stores, run, step, look_up, store_chunk, update_lru,
  evict_old_chunks, evict_from, prefetch, prefetch_from,
}
use fuse_stream_mvp.Fetcher.Legacy.Recency.{Refines, meanings, run-IsLru}

abbrev chunk : Chunk
chunk = record { bytes = 1 ∷ []; err = none }

abbrev eight : List Move
eight =
    stores 0 chunk
    ∷ stores 1 chunk
    ∷ stores 2 chunk
    ∷ stores 3 chunk
    ∷ stores 4 chunk
    ∷ stores 5 chunk
    ∷ stores 6 chunk
    ∷ stores 7 chunk
    ∷ []

abbrev moves : List Move
moves = eight ++ looks 0 ∷ stores 8 chunk ∷ []

run-IsLru_example : Refines (run moves (empty_fetcher 99)) (meanings moves [])
run-IsLru_example = run-IsLru 99 moves

-- The hit keeps the first chunk, and the second goes.
run_keeps_used : (run moves (empty_fetcher 99)).lru_order ≡ 2 ∷ 3 ∷ 4 ∷ 5 ∷ 6 ∷ 7 ∷ 0 ∷ 8 ∷ []
unfolding run step look_up store_chunk update_lru evict_old_chunks evict_from get put delete erase
run_keeps_used = refl

-- Twice as many chunks as the cache keeps.
length-prefetch : length (prefetch 419430400 (λ o. false) 0) ≡ 16
unfolding prefetch prefetch_from
length-prefetch = refl
