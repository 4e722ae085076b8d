-- ===== src/Fetcher/RangeLru/New.antt =====
-- internal/fetcher/store_rangelru.go: NewRangeLRUStore.
--
-- `Head` is the answer to the HEAD request, `none` where the request fails.
use fuse_stream_mvp.Base.{
  ℕ, ◌<◌, ◌≡◌, refl, Option, none, some, List, [], ◌∷◌, arith, length, contains, ◌==◌,
  if◌then◌else◌, ap,
}
use fuse_stream_mvp.Base.Maps.{Text, text_beq, get, nat_eq}
use fuse_stream_mvp.Base.Words.{ℤ, pos, negsuc, is_nonpos, to_ℕ}
use fuse_stream_mvp.Fetcher.RangeLru.{Store, cached}
use fuse_stream_mvp.Fetcher.RangeLru.Cache.{IsCoherent}
use fuse_stream_mvp.Fetcher.RangeLru.Chunks.{IsSound}
use fuse_stream_mvp.Fetcher.RangeLru.Complete.{IsClean}

-- What the constructor reads of `StoreOptions`.
pub record Options : Type 0 where
  pub chunk_size : ℤ
  pub max_concurrent_requests : ℤ
  pub cache_size : ℤ

pub record Head : Type 0 where
  pub status : ℕ
  pub accept_ranges : Text

pub data NewError : Type 0 where
  invalid_file_size head_request_failed no_range_support : NewError

pub data Created : Type 0 where
  created : Store → Created
  not_created : NewError → Created

abbrev pub or_default : ℤ → ℕ → ℕ
or_default option default = if is_nonpos option then default else to_ℕ option

-- "bytes"
abbrev pub bytes_unit : Text
bytes_unit = b'b' ∷ b'y' ∷ b't' ∷ b'e' ∷ b's' ∷ []

abbrev pub empty_store : ℕ → Options → Store
empty_store size opts = record {
  size = size;
  chunk_size = or_default opts.chunk_size 4194304;
  cache_capacity = or_default opts.cache_size 8;
  cache = some [];
  lru_order = [];
  active_reads = [];
  ref_count = 0;
}

unfoldable pub new_range_lru_store : ℤ → Options → Option Head → Created
new_range_lru_store size opts head =
    if is_nonpos size then not_created invalid_file_size else elim head [
      | none ↦ not_created head_request_failed
      | some h ↦
          if h.status == 200
          then (if text_beq h.accept_ranges bytes_unit
              then created (empty_store (to_ℕ size) opts)
              else not_created no_range_support)
          else not_created head_request_failed
    ]

or_default-positive : (option : ℤ) (default : ℕ) → 0 < default → 0 < or_default option default
or_default-positive (pos n) default h = ground arith
or_default-positive (negsuc n) default h = h

empty_store-IsSound :
    (file : List ℕ) (size : ℤ) (opts : Options)
    → size ≡ pos (length file)
    → IsSound file (empty_store (to_ℕ size) opts).chunk_size (empty_store (to_ℕ size) opts)
unfolding cached get
empty_store-IsSound file size opts e = record {
  sized = ap to_ℕ e;
  chunked = refl;
  positive = or_default-positive opts.chunk_size 4194304 (omega arith);
  opened = ([], refl);
  right = λ k c h. absurd (ground arith);
}

empty_store-IsCoherent : (size : ℕ) (opts : Options) → IsCoherent (empty_store size opts)
unfolding cached get contains
empty_store-IsCoherent size opts = record {
  bounded = omega arith;
  distinct = tt;
  agrees = λ k. refl;
}

empty_store-IsClean : (size : ℕ) (opts : Options) → IsClean (empty_store size opts)
unfolding cached get
empty_store-IsClean size opts = record { healthy = λ k c h. absurd (ground arith); idle = refl }

new_range_lru_store-created :
    (size : ℤ) (opts : Options) (head : Option Head) (s : Store)
    → new_range_lru_store size opts head ≡ created s
    → s ≡ empty_store (to_ℕ size) opts
unfolding new_range_lru_store
new_range_lru_store-created size opts head s e = ground arith

-- A store that NewRangeLRUStore makes for the size of a file is sound for this file, coherent and
-- clean, and has room for a chunk: whatever the options are, ReadAt may start on it.
pub new_range_lru_store-IsSound :
    (file : List ℕ) (size : ℤ) (opts : Options) (head : Option Head) (s : Store)
    → size ≡ pos (length file)
    → new_range_lru_store size opts head ≡ created s
    → IsSound file s.chunk_size s × IsCoherent s × IsClean s × (0 < s.cache_capacity)
new_range_lru_store-IsSound file size opts head s e made =
    rw (new_range_lru_store-created size opts head s made) (
      empty_store-IsSound file size opts e,
      empty_store-IsCoherent (to_ℕ size) opts,
      empty_store-IsClean (to_ℕ size) opts,
      or_default-positive opts.cache_size 8 (omega arith),
    )
