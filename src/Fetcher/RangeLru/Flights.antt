-- ===== src/Fetcher/RangeLru/Flights.antt =====
-- internal/fetcher/store_rangelru.go: how the calls of getChunk share one fetch.
--
-- Any number of calls; a move is a critical section, or the end of a fetch or of a wait. A call has a
-- number, and the channel that it makes has the same. `cache` has the offsets of the chunks in the
-- cache, from which the calls for other chunks evict at any time.
pub mod Shared
pub mod Single
use fuse_stream_mvp.Base.{
  ℕ, ◌+◌, ◌≡◌, Bool, true, false, Option, none, some, List, [], ◌∷◌, if◌then◌else◌, contains, erase,
}
use fuse_stream_mvp.Base.Maps.{Map, get, put, delete, nat_eq}

-- Where a call is: behind the miss in the cache, at its fetch (done and stored, or not), or at the wait
-- for another call's channel.
pub data Pc : Type 0 where
  missed : ℕ → Pc
  fetching : Bool → ℕ → Pc
  waiting : ℕ → ℕ → Pc

pub record Flights : Type 0 where
  pub cache : List ℕ
  pub active_reads : Map ℕ ℕ
  pub closed : List ℕ
  pub calls_at : Map ℕ Pc
  pub next : ℕ

abbrev pub no_flights : Flights
no_flights = record { cache = []; active_reads = []; closed = []; calls_at = []; next = 0 }

pub data Move : Type 0 where
  looks evicts : ℕ → Move
  joins stores signals wakes gives_up : ℕ → Move

-- The first look at the cache: a hit returns.
unfoldable pub look : ℕ → Flights → Flights
look offset s =
    if contains offset s.cache
    then s
    else record s { calls_at = put s.next (missed offset) s.calls_at; next = s.next + 1 }

-- The look at activeReads.
unfoldable pub join : ℕ → Flights → Flights
join i s = elim (get i s.calls_at) [
  | some (missed offset) ↦ elim (get offset s.active_reads) [
    | some d ↦ record s { calls_at = put i (waiting offset d) s.calls_at }
    | none ↦ record s {
      active_reads = put offset i s.active_reads;
      calls_at = put i (fetching false offset) s.calls_at;
    }
  ]
  | _ ↦ s
]

-- The end of the fetch: its chunk goes into the cache, whether it is an error or not.
unfoldable pub store : ℕ → Flights → Flights
store i s = elim (get i s.calls_at) [
  | some (fetching false offset) ↦ record s {
    cache = offset ∷ erase offset s.cache;
    calls_at = put i (fetching true offset) s.calls_at;
  }
  | _ ↦ s
]

unfoldable pub signal : ℕ → Flights → Flights
signal i s = elim (get i s.calls_at) [
  | some (fetching true offset) ↦ record s {
    active_reads = delete offset s.active_reads;
    closed = i ∷ s.closed;
    calls_at = delete i s.calls_at;
  }
  | _ ↦ s
]

-- The end of a wait, at which the call returns what the cache has then.
unfoldable pub wake : ℕ → Flights → Flights
wake i s = elim (get i s.calls_at) [
  | some (waiting offset d) ↦
      if contains d s.closed then record s { calls_at = delete i s.calls_at } else s
  | _ ↦ s
]

-- The context of a call that waits is done.
unfoldable pub give_up : ℕ → Flights → Flights
give_up i s = elim (get i s.calls_at) [
  | some (waiting offset d) ↦ record s { calls_at = delete i s.calls_at }
  | _ ↦ s
]

-- A move that is not possible changes nothing.
unfoldable pub step : Move → Flights → Flights
step (looks offset) s = look offset s
step (evicts offset) s = record s { cache = erase offset s.cache }
step (joins i) s = join i s
step (stores i) s = store i s
step (signals i) s = signal i s
step (wakes i) s = wake i s
step (gives_up i) s = give_up i s

unfoldable pub run : List Move → Flights → Flights
run [] s = s
run (m ∷ ms) s = run ms (step m s)
