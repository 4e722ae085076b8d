-- ===== src/Logging/FuseLogger/Order.antt =====
-- internal/logging/fuse_logger.go: nothing is lost or reordered between a callback and the file.
use fuse_stream_mvp.Base.{
  ◌≡◌, refl, sym, ap, subst, Bool, true, false, List, [], ◌∷◌, ◌++◌, ltb, leb, arith, length,
  either, either_of,
}
use fuse_stream_mvp.Logging.FuseLogger.{
  Entry, Writes, Phase, running, draining, stopped, Logger, batch_size, new_logger, receive, tick,
  drain, close_file, Event, logs, counts, receives, ticks, drains, sees_done, closes, step, run,
}
use mathlib.Core.List.{append_assoc, append-nil}
use fuse_stream_mvp.Logging.FuseLogger.Batches.{
  Holds, Refines, IsFlushed, WorksFor, count_drop-Refines, flush-IsFlushed, take_entry-Holds,
  log_non_blocking-Refines, new_logger-Refines,
}

-- What a run logs, in its order.
abbrev pub logged_by : Event → List Entry
logged_by (logs e) = e ∷ []
logged_by _ = []

abbrev pub logged : List Event → List Entry
logged [] = []
logged (e ∷ es) = logged_by e ++ logged es

module _ (shows : Entry → Bool) where
  -- In every flush of the run the system does as `WorksFor` says.
  abbrev pub AllWrite : List Event → Type 0
  AllWrite [] = Unit {0}
  AllWrite (receives w ∷ es) = WorksFor shows w × AllWrite es
  AllWrite (ticks w ∷ es) = WorksFor shows w × AllWrite es
  AllWrite (drains w ∷ es) = WorksFor shows w × AllWrite es
  AllWrite (_ ∷ es) = AllWrite es

  receive-Refines :
      (writes : Writes) (past : List Entry) (l : Logger)
      → WorksFor shows writes
      → l.phase ≡ running
      → Refines shows past l
      → Refines shows past (receive writes l)
  unfolding receive
  receive-Refines writes past l all p v = go l.buffer refl
    where
      opened : l.file_open ≡ true
      opened = v.opened (λ q. ground arith)

      go : (b : List Entry) → l.buffer ≡ b → Refines shows past (receive writes l)
      go [] b = simp (b, receive) v
      go (e ∷ rest) b =
          let h = take_entry-Holds shows past e rest l b v.holds in
          simp (b, receive)
            (either_of (Refines shows past) (leb batch_size (length (l.batch ++ e ∷ [])))
              (λ full.
                (flush-IsFlushed shows writes past
                  (record l { buffer = rest; batch = l.batch ++ e ∷ [] }) all opened h).0)
              λ room. record {
                holds = h;
                small = λ q. ground arith;
                flushed = λ q. ground arith;
                opened = v.opened;
              })

  empty_of_length : (es : List Entry) → ltb 0 (length es) ≡ false → es ≡ []
  empty_of_length [] h = refl
  empty_of_length (e ∷ es) h = absurd (ground arith)

  tick-IsFlushed :
      (writes : Writes) (past : List Entry) (l : Logger)
      → WorksFor shows writes
      → l.file_open ≡ true
      → Holds shows past l
      → IsFlushed shows past l (tick writes l)
  unfolding tick
  tick-IsFlushed writes past l all opened v =
      either_of (IsFlushed shows past l) (ltb 0 (length l.batch))
        (λ some_entries. flush-IsFlushed shows writes past l all opened v)
        λ no_entries.
          let empty = empty_of_length l.batch no_entries in
          (
            record {
              holds = v;
              small = λ e. omega (arith, ap length empty);
              flushed = λ e. empty;
              opened = λ e. opened;
            },
            refl,
            empty,
            opened,
          )

  -- The writer has returned with nothing in its batch.
  stop-Refines :
      (past : List Entry) (l : Logger)
      → Holds shows past l
      → l.batch ≡ []
      → Refines shows past (record l { phase = stopped })
  stop-Refines past l v empty = record {
    holds = record { kept = v.kept; shown = v.shown; counted = v.counted; bounded = v.bounded };
    small = λ e. absurd (ground arith);
    flushed = λ e. empty;
    opened = λ e. absurd (e refl);
  }

  drain-Refines :
      (writes : Writes) (past : List Entry) (l : Logger)
      → WorksFor shows writes
      → l.phase ≡ draining
      → Refines shows past l
      → Refines shows past (drain writes l)
  unfolding drain
  drain-Refines writes past l all p v = go l.buffer refl
    where
      opened : l.file_open ≡ true
      opened = v.opened (λ q. ground arith)

      go : (b : List Entry) → l.buffer ≡ b → Refines shows past (drain writes l)
      go [] b =
          let (r, same, empty, opened) = tick-IsFlushed writes past l all opened v.holds in
          simp (b, drain) (stop-Refines past (tick writes l) r.holds empty)
      go (e ∷ rest) b =
          let h = take_entry-Holds shows past e rest l b v.holds in
          simp (b, drain)
            (record {
              holds = h;
              small = λ q. absurd (ground arith);
              flushed = λ q. absurd (ground arith);
              opened = v.opened;
            })

  close_file-Refines :
      (past : List Entry) (l : Logger)
      → l.phase ≡ stopped
      → Refines shows past l
      → Refines shows past (close_file l)
  unfolding close_file
  close_file-Refines past l p v =
      either (Refines shows past) l.file_open
        (record {
          holds = record {
            kept = v.holds.kept;
            shown = v.holds.shown;
            counted = v.holds.counted;
            bounded = v.holds.bounded;
          };
          small = λ q. absurd (ground arith);
          flushed = v.flushed;
          opened = λ q. absurd (q p);
        })
        v

  see_done-Refines :
      (past : List Entry) (l : Logger)
      → l.phase ≡ running
      → Refines shows past l
      → Refines shows past (record l { phase = draining })
  see_done-Refines past l p v = record {
    holds = record {
      kept = v.holds.kept;
      shown = v.holds.shown;
      counted = v.holds.counted;
      bounded = v.holds.bounded;
    };
    small = λ q. absurd (ground arith);
    flushed = λ q. absurd (ground arith);
    opened = λ q. v.opened (λ r. ground arith);
  }

  by_phase :
      (P : Logger → Type 0) (p : Phase) {r d s : Logger}
      → (p ≡ running → P r)
      → (p ≡ draining → P d)
      → (p ≡ stopped → P s)
      → P (elim p [ running ↦ r | draining ↦ d | stopped ↦ s ])
  by_phase P running f g h = f refl
  by_phase P draining f g h = g refl
  by_phase P stopped f g h = h refl

  -- A turn of the writer, in the phase that it needs, and nothing in another.
  turn-Refines :
      (e : Event) (past : List Entry) (l : Logger)
      → AllWrite (e ∷ [])
      → logged_by e ≡ []
      → Refines shows past l
      → Refines shows past (step e l)
  unfolding step
  turn-Refines (logs e) past l all silent v = absurd (ground arith)
  turn-Refines (receives w) past l all silent v =
      by_phase (Refines shows past) l.phase (λ p. receive-Refines w past l all.0 p v) (λ p. v)
        (λ p. v)
  turn-Refines (ticks w) past l all silent v =
      by_phase (Refines shows past) l.phase
        (λ p. (tick-IsFlushed w past l all.0 (v.opened (λ q. ground arith)) v.holds).0) (λ p. v)
        (λ p. v)
  turn-Refines (drains w) past l all silent v =
      by_phase (Refines shows past) l.phase (λ p. v) (λ p. drain-Refines w past l all.0 p v)
        (λ p. v)
  turn-Refines (counts x) past l all silent v = count_drop-Refines shows x past l v
  turn-Refines sees_done past l all silent v =
      by_phase (Refines shows past) l.phase (λ p. see_done-Refines past l p v) (λ p. v) (λ p. v)
  turn-Refines closes past l all silent v =
      by_phase (Refines shows past) l.phase (λ p. v) (λ p. v) (λ p. close_file-Refines past l p v)

  step-Refines :
      (e : Event) (past : List Entry) (l : Logger)
      → AllWrite (e ∷ [])
      → Refines shows past l
      → Refines shows (past ++ logged_by e) (step e l)
  unfolding step
  step-Refines (logs e) past l all v = log_non_blocking-Refines shows past e l v
  step-Refines e past l all v =
      subst (λ p. Refines shows p (step e l)) (sym (append-nil past))
        (turn-Refines e past l all refl v)

  all_split : (e : Event) (es : List Event) → AllWrite (e ∷ es) → AllWrite (e ∷ []) × AllWrite es
  all_split (receives w) es all = ((all.0, _), all.1)
  all_split (ticks w) es all = ((all.0, _), all.1)
  all_split (drains w) es all = ((all.0, _), all.1)
  all_split (logs e) es all = (_, all)
  all_split (counts x) es all = (_, all)
  all_split sees_done es all = (_, all)
  all_split closes es all = (_, all)

  run-Refines_from :
      (es : List Event) (past : List Entry) (l : Logger)
      → AllWrite es
      → Refines shows past l
      → Refines shows (past ++ logged es) (run es l)
  unfolding run
  run-Refines_from [] past l all v = subst (λ p. Refines shows p l) (sym (append-nil past)) v
  run-Refines_from (e ∷ es) past l all v =
      let (one, rest) = all_split e es all in
      subst (λ p. Refines shows p (run es (step e l))) (append_assoc past (logged_by e) (logged es))
        (run-Refines_from es (past ++ logged_by e) (step e l) rest (step-Refines e past l one v))

  -- While the writes to the file succeed and the standard output takes the messages that a given
  -- test allows: whatever the callbacks log, however their increments of dropped interleave, and
  -- however the writer, its ticker and Close are scheduled between them, the file, the batch and
  -- the queue of the FUSE logger are together the messages logged, in their order, less those
  -- dropped, and dropped counts no more than these; standard output shows the messages of the
  -- file that it takes, in their order, written counts those of the file modulo 2^64, queue and
  -- batch keep their bounds, a writer that has returned leaves no batch, and the file is open
  -- until then.
  pub run-Refines : (es : List Event) → AllWrite es → Refines shows (logged es) (run es new_logger)
  run-Refines es all = run-Refines_from es [] new_logger all (new_logger-Refines shows)
