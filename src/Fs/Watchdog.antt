-- ===== src/Fs/Watchdog.antt =====
-- internal/fs/watchdog.go: the FUSE callbacks in flight.
--
-- The clock is an argument. A callback that has entered leaves once, with the key that it entered
-- with; callbacks enter and leave in any order. `stop_closed` and `stopped_closed` say whether the two
-- channels are closed, and `panicked` whether one of them was closed twice: then the
-- process ends, and what the model does after that stands for nothing. The stack dumps and the
-- ticker of `monitor` are left out.
pub mod Restarts
use fuse_stream_mvp.Base.{
  ℕ, ◌+◌, ◌-◌, ◌≡◌, ◌↔◌, Bool, true, false, ◌&&◌, ◌||◌, not, Option, none, some, List, [], ◌∷◌,
  arith, ltb, leb, ◌==◌, if◌then◌else◌,
}
use fuse_stream_mvp.Base.Maps.{Eq, Map, Text, text_beq, text_beq_iff, text_eq, get, put, delete}
use fuse_stream_mvp.Base.Words.{u64}

-- `opKey`
pub record OpKey : Type 0 where
  pub kind : Text
  pub id : ℕ

abbrev pub key_beq : OpKey → OpKey → Bool
key_beq k l = text_beq k.kind l.kind && k.id == l.id

pub key_beq_iff : (k l : OpKey) → (key_beq k l ≡ true) ↔ (k ≡ l)
key_beq_iff k l = ground (arith, text_beq_iff k.kind l.kind)

instance abbrev pub key_eq : Eq OpKey
key_eq = record { beq = key_beq; beq_iff = key_beq_iff }

pub record Watchdog : Type 0 where
  pub inflight : Map OpKey ℕ
  pub op_counts : Map Text ℕ
  pub seq : ℕ
  pub enabled : Bool
  pub stop_closed : Bool
  pub stopped_closed : Bool
  pub panicked : Bool

abbrev pub new_watchdog : Watchdog
new_watchdog = record {
  inflight = [];
  op_counts = [];
  seq = 0;
  enabled = false;
  stop_closed = false;
  stopped_closed = false;
  panicked = false;
}

-- The end of `monitor`, which comes once stopCh is closed: it closes `stopped`.
unfoldable pub monitor_ends : Watchdog → Watchdog
monitor_ends w =
    if w.stopped_closed then record w { panicked = true } else record w { stopped_closed = true }

-- The new `monitor` ends at once where stopCh is closed.
unfoldable pub start : Watchdog → Watchdog
start w =
    let on = record w { enabled = true } in
    if w.enabled then w else if w.stop_closed then monitor_ends on else on

-- It waits for the end of `monitor`.
unfoldable pub stop : Watchdog → Watchdog
stop w =
    let off = record w { enabled = false } in
    if not w.enabled
    then w
    else if w.stop_closed
    then record off { panicked = true }
    else monitor_ends (record off { stop_closed = true })

-- start panics exactly on a watchdog that was stopped before.
pub start-panicked :
    (w : Watchdog)
    → (start w).panicked ≡ (w.panicked || (not w.enabled && (w.stop_closed && w.stopped_closed)))
unfolding start monitor_ends
start-panicked w = ground arith

pub start-enabled : (w : Watchdog) → (start w).enabled ≡ true
unfolding start monitor_ends
start-enabled w = ground arith

pub stop-enabled : (w : Watchdog) → (stop w).enabled ≡ false
unfolding stop monitor_ends
stop-enabled w = ground arith

abbrev pub count_or_zero : Text → Map Text ℕ → ℕ
count_or_zero kind m = elim (get kind m) [ none ↦ 0 | some n ↦ n ]

-- The key is `none` where the watchdog is off: the function returned then does nothing.
unfoldable pub enter : Text → ℕ → Watchdog → Watchdog × Option OpKey
enter kind now w =
    if not w.enabled
    then (w, none)
    else let id = u64 (w.seq + 1) in
      let key : OpKey = record { kind = kind; id = id } in
      (
        record w {
          seq = id;
          inflight = put key now w.inflight;
          op_counts = put kind (count_or_zero kind w.op_counts + 1) w.op_counts;
        },
        some key,
      )

-- The function that `enter` returns.
unfoldable pub leave : OpKey → Watchdog → Watchdog
leave key w =
    let n = count_or_zero key.kind w.op_counts - 1 in
    record w {
      inflight = delete key w.inflight;
      op_counts = if leb n 0 then delete key.kind w.op_counts else put key.kind n w.op_counts;
    }

-- What `checkForStalls` reports.
unfoldable pub stalled : ℕ → ℕ → Map OpKey ℕ → List OpKey
stalled threshold now [] = []
stalled threshold now ((key, started) ∷ m) =
    let rest = stalled threshold now m in if ltb threshold (now - started) then key ∷ rest else rest
