-- ===== src/Fetcher/TempStore/Gate.antt =====
-- internal/fetcher/store_tempfile.go: how ReadAt and CloseWithContext keep out of each other's way.
--
-- Any number of readers and any number of calls of Close. A move is one atomic operation, or the end of
-- a wait; a reader that is in no move stands in `readers_at` nowhere. `readers` is the counter of the
-- WaitGroup, whose Wait ends only at 0. The wait for the downloader is a step of `draining`, which ends
-- either way and changes nothing here.
pub mod Safety
use fuse_stream_mvp.Base.{
  ℕ, zero, suc, ◌+◌, ◌-◌, Bool, true, false, Option, none, some, List, [], ◌∷◌, ◌≡◌, ◌==◌,
  if◌then◌else◌,
}
use fuse_stream_mvp.Base.Maps.{Map, get, put, delete, nat_eq}

-- Where a call of ReadAt is: behind the first check, registered, or behind the second check.
pub data ReaderPc : Type 0 where
  checked registered inside : ReaderPc

-- Where the call of Close is that won the swap of `closed`.
pub data ClosePhase : Type 0 where
  not_closed swapped draining drained timed_out shut : ClosePhase

pub record Gate : Type 0 where
  pub closed : Bool
  pub closing : Bool
  pub readers : ℕ
  pub readers_at : Map ℕ ReaderPc
  pub phase : ClosePhase
  pub file_open : Bool

abbrev pub new_gate : Gate
new_gate = record {
  closed = false;
  closing = false;
  readers = 0;
  readers_at = [];
  phase = not_closed;
  file_open = true;
}

pub data Move : Type 0 where
  checks registers rechecks leaves : ℕ → Move
  calls_close sets_closing ends_drain gives_up closes_file : Move

-- The moves of reader `i`.
unfoldable pub reader_checks : ℕ → Gate → Option Gate
reader_checks i s = elim (get i s.readers_at) [
  | none ↦ if s.closing then some s else some (record s { readers_at = put i checked s.readers_at })
  | some pc ↦ none
]

unfoldable pub reader_registers : ℕ → Gate → Option Gate
reader_registers i s = elim (get i s.readers_at) [
  | some checked ↦
      some (record s { readers = s.readers + 1; readers_at = put i registered s.readers_at })
  | _ ↦ none
]

-- `s.readers.Done()` on the way out.
abbrev pub done : ℕ → Gate → Gate
done i s = record s { readers = s.readers - 1; readers_at = delete i s.readers_at }

unfoldable pub reader_rechecks : ℕ → Gate → Option Gate
reader_rechecks i s = elim (get i s.readers_at) [
  | some registered ↦
      if s.closing
      then some (done i s)
      else some (record s { readers_at = put i inside s.readers_at })
  | _ ↦ none
]

unfoldable pub reader_leaves : ℕ → Gate → Option Gate
reader_leaves i s = elim (get i s.readers_at) [ some inside ↦ some (done i s) | _ ↦ none ]

-- The moves of CloseWithContext; a call that finds `closed` set returns at once.
unfoldable pub close_calls : Gate → Option Gate
close_calls s = if s.closed then some s else some (record s { closed = true; phase = swapped })

unfoldable pub close_sets_closing : Gate → Option Gate
close_sets_closing s = elim s.phase [
  | swapped ↦ some (record s { closing = true; phase = draining })
  | _ ↦ none
]

unfoldable pub close_ends_drain : Gate → Option Gate
close_ends_drain s = elim s.phase [
  | draining ↦ if s.readers == 0 then some (record s { phase = drained }) else none
  | _ ↦ none
]

-- The context of Close is done before the readers have drained.
unfoldable pub close_gives_up : Gate → Option Gate
close_gives_up s = elim s.phase [ draining ↦ some (record s { phase = timed_out }) | _ ↦ none ]

unfoldable pub close_file : Gate → Option Gate
close_file s = elim s.phase [
  | drained ↦ some (record s { file_open = false; phase = shut })
  | _ ↦ none
]

-- `none` where the move is not possible.
unfoldable pub step : Move → Gate → Option Gate
step (checks i) s = reader_checks i s
step (registers i) s = reader_registers i s
step (rechecks i) s = reader_rechecks i s
step (leaves i) s = reader_leaves i s
step calls_close s = close_calls s
step sets_closing s = close_sets_closing s
step ends_drain s = close_ends_drain s
step gives_up s = close_gives_up s
step closes_file s = close_file s

-- The states that moves lead to from `s`.
pub data Reaches (s : Gate) : Gate → Type 0 where
  here : Reaches s s
  moves : {t u : Gate} (m : Move) → step m t ≡ some u → Reaches s t → Reaches s u
