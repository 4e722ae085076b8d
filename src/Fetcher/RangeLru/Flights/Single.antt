-- ===== src/Fetcher/RangeLru/Flights/Single.antt =====
-- internal/fetcher/store_rangelru.go: no chunk is fetched twice at a time, and no wait is left alone.
use fuse_stream_mvp.Base.{
  ℕ, ◌≡◌, refl, ◌∙◌, either, inl, inr, ◌⊎◌, Bool, true, false, Option, none, some, List, [], ◌∷◌,
  arith, contains, Option-cases,
}
use fuse_stream_mvp.Base.Maps.{get, put, nat_eq, get-put, get-delete}
use fuse_stream_mvp.Fetcher.RangeLru.Flights.{
  Pc, missed, fetching, waiting, Flights, no_flights, Move, looks, evicts, joins, stores, signals,
  wakes, gives_up, join, store, signal, wake, give_up, step, run,
}
use fuse_stream_mvp.Fetcher.RangeLru.Flights.Shared.{
  IsShared, eq-or-ne, put_ne, put_self, idle-IsShared, look-IsShared, end-IsShared,
}

-- Where a call is.
data View (p : Option Pc) : Type 0 where
  idle : p ≡ none → View p
  at_miss : (o : ℕ) → p ≡ some (missed o) → View p
  at_fetch : (b : Bool) (o : ℕ) → p ≡ some (fetching b o) → View p
  at_wait : (o d : ℕ) → p ≡ some (waiting o d) → View p

view : (p : Option Pc) → View p
view none = idle refl
view (some (missed o)) = at_miss o refl
view (some (fetching b o)) = at_fetch b o refl
view (some (waiting o d)) = at_wait o d refl

wake-IsShared : (i : ℕ) (s : Flights) → IsShared s → IsShared (wake i s)
unfolding wake
wake-IsShared i s v = elim (view (get i s.calls_at)) [
  | idle e ↦ rw (e, wake) v
  | at_miss o e ↦ rw (e, wake) v
  | at_fetch b o e ↦ rw (e, wake) v
  | at_wait o d e ↦
      rw (e, wake)
        (either IsShared (contains d s.closed) (end-IsShared s i (λ q b h. absurd (ground arith)) v)
          v)
]

give_up-IsShared : (i : ℕ) (s : Flights) → IsShared s → IsShared (give_up i s)
unfolding give_up
give_up-IsShared i s v = elim (view (get i s.calls_at)) [
  | idle e ↦ rw (e, give_up) v
  | at_miss o e ↦ rw (e, give_up) v
  | at_fetch b o e ↦ rw (e, give_up) v
  | at_wait o d e ↦ rw (e, give_up) (end-IsShared s i (λ q b h. absurd (ground arith)) v)
]

-- A call that has missed waits for the one that fetches.
wait-IsShared :
    (s : Flights) (i o d : ℕ)
    → get i s.calls_at ≡ some (missed o)
    → get o s.active_reads ≡ some d
    → IsShared s
    → IsShared (record s { calls_at = put i (waiting o d) s.calls_at })
wait-IsShared s i o d e f v =
    let here = put_self i (waiting o d) s.calls_at in
    idle-IsShared s i s.next (put i (waiting o d) s.calls_at)
      (λ j ne. put_ne i j (waiting o d) s.calls_at ne) (λ q b h. absurd (ground arith))
      (λ q b h. absurd (ground arith)) (λ q c h. ground arith) (omega arith)
      (λ pc h. v.known i (missed o) e) v

-- A call that has missed begins to fetch.
fetch-IsShared :
    (s : Flights) (i o : ℕ)
    → get i s.calls_at ≡ some (missed o)
    → get o s.active_reads ≡ none
    → IsShared s
    → IsShared (record s {
      active_reads = put o i s.active_reads;
      calls_at = put i (fetching false o) s.calls_at;
    })
fetch-IsShared s i o e f v = record {
  owns = λ q j h. elim (eq-or-ne o q) [
    | inl same ↦ (
      false,
      ground (arith, get-put q o i s.active_reads, put_self i (fetching false o) s.calls_at),
    )
    | inr other ↦
        let (b, g) = v.owns q j (ground (arith, get-put q o i s.active_reads)) in
        (b, ground (arith, get-put j i (fetching false o) s.calls_at))
  ];
  busy = λ j q b h. ground (
    arith,
    get-put j i (fetching false o) s.calls_at,
    get-put q o i s.active_reads,
    v.busy j q b,
  );
  waits = λ j q d h. ground (
    arith,
    get-put j i (fetching false o) s.calls_at,
    get-put q o i s.active_reads,
    v.waits j q d,
  );
  known = λ j pc h.
      ground
        (arith, get-put j i (fetching false o) s.calls_at, v.known j pc, v.known i (missed o) e);
}

store-IsShared : (i : ℕ) (s : Flights) → IsShared s → IsShared (store i s)
unfolding store
store-IsShared i s v = elim (view (get i s.calls_at)) [
  | idle e ↦ rw (e, store) v
  | at_miss o e ↦ rw (e, store) v
  | at_wait o d e ↦ rw (e, store) v
  | at_fetch true o e ↦ rw (e, store) v
  | at_fetch false o e ↦
      rw (e, store)
        (record {
          owns = λ q j h. elim (eq-or-ne i j) [
            | inl same ↦
                let (b, g) = v.owns q j h in
                (true, ground (arith, put_self i (fetching true o) s.calls_at))
            | inr other ↦
                let (b, g) = v.owns q j h in (b, put_ne i j (fetching true o) s.calls_at other ∙ g)
          ];
          busy = λ j q b h.
              ground
                (arith, get-put j i (fetching true o) s.calls_at, v.busy j q b, v.busy i o false e);
          waits =
              λ j q d h. ground (arith, get-put j i (fetching true o) s.calls_at, v.waits j q d);
          known = λ j pc h. ground (
            arith,
            get-put j i (fetching true o) s.calls_at,
            v.known j pc,
            v.known i (fetching false o) e,
          );
        })
]

signal-IsShared : (i : ℕ) (s : Flights) → IsShared s → IsShared (signal i s)
unfolding signal contains
signal-IsShared i s v = elim (view (get i s.calls_at)) [
  | idle e ↦ rw (e, signal) v
  | at_miss o e ↦ rw (e, signal) v
  | at_wait o d e ↦ rw (e, signal) v
  | at_fetch false o e ↦ rw (e, signal) v
  | at_fetch true o e ↦
      rw (e, signal)
        (record {
          owns = λ q j h.
              let (b, g) = v.owns q j (ground (arith, get-delete q o s.active_reads)) in
              (b, ground (arith, get-delete j i s.calls_at, get-delete q o s.active_reads));
          busy = λ j q b h. ground (
            arith,
            get-delete j i s.calls_at,
            get-delete q o s.active_reads,
            v.busy j q b,
            v.busy i o true e,
          );
          waits = λ j q d h. ground (
            arith,
            get-delete j i s.calls_at,
            get-delete q o s.active_reads,
            v.waits j q d,
            v.busy i o true e,
          );
          known = λ j pc h. ground (arith, get-delete j i s.calls_at, v.known j pc);
        })
]

join-IsShared : (i : ℕ) (s : Flights) → IsShared s → IsShared (join i s)
unfolding join
join-IsShared i s v = elim (view (get i s.calls_at)) [
  | idle e ↦ rw (e, join) v
  | at_fetch b o e ↦ rw (e, join) v
  | at_wait o d e ↦ rw (e, join) v
  | at_miss o e ↦ elim (Option-cases (get o s.active_reads)) [
    | inl free ↦ rw (e, free, join) (fetch-IsShared s i o e free v)
    | inr (d, f) ↦ rw (e, f, join) (wait-IsShared s i o d e f v)
  ]
]

step-IsShared : (m : Move) (s : Flights) → IsShared s → IsShared (step m s)
unfolding step
step-IsShared (looks o) s v = look-IsShared o s v
step-IsShared (evicts o) s v = record {
  owns = v.owns;
  busy = v.busy;
  waits = v.waits;
  known = v.known;
}
step-IsShared (joins i) s v = join-IsShared i s v
step-IsShared (stores i) s v = store-IsShared i s v
step-IsShared (signals i) s v = signal-IsShared i s v
step-IsShared (wakes i) s v = wake-IsShared i s v
step-IsShared (gives_up i) s v = give_up-IsShared i s v

run-IsShared : (ms : List Move) (s : Flights) → IsShared s → IsShared (run ms s)
unfolding run
run-IsShared [] s v = v
run-IsShared (m ∷ ms) s v = run-IsShared ms (step m s) (step-IsShared m s v)

no_flights-IsShared : IsShared no_flights
unfolding get
no_flights-IsShared = record {
  owns = λ o i e. absurd (ground arith);
  busy = λ i o b e. ground arith;
  waits = λ i o d e. absurd (ground arith);
  known = λ i pc e. absurd (ground arith);
}

-- No two calls fetch the same chunk, and what a call waits for has come or is being fetched.
pub record IsSingle (s : Flights) : Type 0 where
  pub one_fetch :
      (i j o : ℕ) (a b : Bool)
      → get i s.calls_at ≡ some (fetching a o)
      → get j s.calls_at ≡ some (fetching b o)
      → i ≡ j
  pub served :
      (i o d : ℕ)
      → get i s.calls_at ≡ some (waiting o d)
      → (contains d s.closed ≡ true) ⊎ ((b : Bool) × (get d s.calls_at ≡ some (fetching b o)))

-- Whatever calls of getChunk run at the same time, in any order of their critical sections,
-- whatever is evicted between them and whichever waits are given up: no two calls fetch the same
-- chunk at a time, and the channel that a call waits for is closed already or that of a call which
-- is at the fetch of the same chunk, so that no call waits for nothing.
pub run-IsSingle : (ms : List Move) → IsSingle (run ms no_flights)
run-IsSingle ms =
    let s = run ms no_flights in
    let v = run-IsShared ms no_flights no_flights-IsShared in
    record {
      one_fetch = λ i j o a b e h. ground (arith, v.busy i o a e, v.busy j o b h);
      served = λ i o d e. elim (v.waits i o d e) [
        | inl come ↦ inl come
        | inr flies ↦ inr (v.owns o d flies)
      ];
    }
