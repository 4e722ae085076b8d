-- ===== src/Logging/FuseLogger/Batches.antt =====
-- internal/logging/fuse_logger.go: the log as it should be, and what a flush does to it.
use fuse_stream_mvp.Base.{
  ℕ, suc, ◌+◌, ◌≤◌, ◌<◌, ◌≡◌, refl, ◌∙◌, sym, ap, ap₂, subst, ◌≢◌, true, List, [], ◌∷◌, ◌++◌, ltb,
  arith, length, length-append, either_of, Bool, contains, erase, if◌then◌else◌,
}
use fuse_stream_mvp.Base.Words.{u64}
use fuse_stream_mvp.Logging.FuseLogger.{
  Entry, Writes, running, stopped, Logger, fuse_log_buffer_size, batch_size, new_logger,
  log_non_blocking, count_drop, write_entry, write_entries, flush_batch, flush,
}
use mathlib.Core.List.{append_assoc, append-nil}

-- A log as it should be: of the messages `logged`, those kept are in their order and each stands once,
-- and `n` were dropped.
pub data Accepts : List Entry → List Entry → ℕ → Type 0 where
  nothing : Accepts [] [] 0
  keeps :
      {logged kept : List Entry} {n : ℕ} (e : Entry)
      → Accepts logged kept n
      → Accepts (logged ++ e ∷ []) (kept ++ e ∷ []) n
  drops :
      {logged kept : List Entry} {n : ℕ} (e : Entry)
      → Accepts logged kept n
      → Accepts (logged ++ e ∷ []) kept (suc n)

-- All that a message can be in, from the file to the end of the queue.
abbrev pub in_log : Logger → List Entry
in_log l = l.file ++ (l.batch ++ l.buffer)

-- What of the file the standard output shows.
abbrev pub shown_of : (Entry → Bool) → List Entry → List Entry
shown_of shows [] = []
shown_of shows (e ∷ es) = if shows e then e ∷ shown_of shows es else shown_of shows es

shown_of-snoc :
    (shows : Entry → Bool) (es : List Entry) (e : Entry)
    → shown_of shows (es ++ e ∷ [])
      ≡ (if shows e then shown_of shows es ++ e ∷ [] else shown_of shows es)
shown_of-snoc shows [] e = refl
shown_of-snoc shows (x ∷ es) e = ground (arith, shown_of-snoc shows es e)

contains_of-erase : (v w : ℕ) (xs : List ℕ) → contains v (erase w xs) ≡ true → contains v xs ≡ true
unfolding contains erase
contains_of-erase v w [] h = h
contains_of-erase v w (x ∷ xs) h = ground (arith, contains_of-erase v w xs)

u64-le : (n : ℕ) → u64 n ≤ n
u64-le n = omega arith

u64-suc : (n : ℕ) → u64 (u64 n + 1) ≡ u64 (suc n)
u64-suc n = omega arith

in_log-snoc :
    (l : Logger) (e : Entry)
    → in_log l ++ e ∷ [] ≡ in_log (record l { buffer = l.buffer ++ e ∷ [] })
in_log-snoc l e =
    append_assoc l.file (l.batch ++ l.buffer) (e ∷ [])
    ∙ ap (λ b. l.file ++ b) (append_assoc l.batch l.buffer (e ∷ []))

module _ (shows : Entry → Bool) where
  -- The system takes every line of the file, and the standard output those that `shows` says.
  abbrev pub WorksFor : Writes → Type 0
  WorksFor writes = (e : Entry) → (writes.file_takes e ≡ true) × (writes.stdout_takes e ≡ shows e)

  -- At any moment. `n` messages were dropped; the counter does not count more.
  pub record Holds (past : List Entry) (l : Logger) : Type 0 where
    pub kept :
        (n : ℕ) × Accepts past (in_log l) n
        × (l.dropped ≤ n)
        × ((v : ℕ) → contains v l.counting ≡ true → v < n)
    pub shown : l.stdout ≡ shown_of shows l.file
    pub counted : l.written ≡ u64 (length l.file)
    pub bounded : length l.buffer ≤ fuse_log_buffer_size

  -- Between two events.
  pub record Refines (past : List Entry) (l : Logger) : Type 0 where
    pub holds : Holds past l
    pub small : l.phase ≡ running → length l.batch < batch_size
    pub flushed : l.phase ≡ stopped → l.batch ≡ []
    pub opened : l.phase ≢ stopped → l.file_open ≡ true

  pub new_logger-Refines : Refines [] new_logger
  unfolding contains
  new_logger-Refines = record {
    holds = record {
      kept = (0, nothing, omega arith, λ v h. absurd (ground arith));
      shown = refl;
      counted = refl;
      bounded = omega arith;
    };
    small = λ e. omega arith;
    flushed = λ e. refl;
    opened = λ e. refl;
  }

  log_non_blocking-Holds :
      (past : List Entry) (e : Entry) (l : Logger)
      → Holds past l
      → Holds (past ++ e ∷ []) (log_non_blocking e l)
  unfolding log_non_blocking contains
  log_non_blocking-Holds past e l v =
      let (n, a, d, reads) = v.kept in
      either_of (Holds (past ++ e ∷ [])) (ltb (length l.buffer) fuse_log_buffer_size)
        (λ room. record {
          kept = (
            n,
            subst (λ k. Accepts (past ++ e ∷ []) k n) (in_log-snoc l e) (keeps e a),
            d,
            reads,
          );
          shown = v.shown;
          counted = v.counted;
          bounded = ground (arith, length-append l.buffer (e ∷ []));
        })
        (λ full. record {
          kept = (suc n, drops e a, omega (arith, d), λ v h. ground (arith, d, reads v));
          shown = v.shown;
          counted = v.counted;
          bounded = v.bounded;
        })

  pub log_non_blocking-Refines :
      (past : List Entry) (e : Entry) (l : Logger)
      → Refines past l
      → Refines (past ++ e ∷ []) (log_non_blocking e l)
  unfolding log_non_blocking
  log_non_blocking-Refines past e l v = record {
    holds = log_non_blocking-Holds past e l v.holds;
    small = λ p. ground (arith, v.small);
    flushed = λ p. ground (arith, v.flushed);
    opened = λ p. ground (arith, v.opened);
  }

  pub count_drop-Refines :
      (v : ℕ) (past : List Entry) (l : Logger) → Refines past l → Refines past (count_drop v l)
  unfolding count_drop
  count_drop-Refines v past l r =
      let (n, a, d, reads) = r.holds.kept in
      either_of (Refines past) (contains v l.counting)
        (λ here. record {
          holds = record {
            kept = (
              n,
              a,
              omega (arith, reads v here, u64-le (v + 1)),
              λ w h. reads w (contains_of-erase w v l.counting h),
            );
            shown = r.holds.shown;
            counted = r.holds.counted;
            bounded = r.holds.bounded;
          };
          small = r.small;
          flushed = r.flushed;
          opened = r.opened;
        })
        (λ absent. r)

  -- A file that has `f`, shown and counted.
  abbrev wrote : List Entry → Logger → Logger
  wrote f l = record l { file = f; stdout = shown_of shows f; written = u64 (length f) }

  write_entry-wrote :
      (writes : Writes) (e : Entry) (f : List Entry) (l : Logger)
      → WorksFor writes
      → write_entry writes e (wrote f l) ≡ wrote (f ++ e ∷ []) l
  unfolding write_entry
  write_entry-wrote writes e f l w =
      let n : u64 (u64 (length f) + 1) ≡ u64 (length (f ++ e ∷ [])) =
        u64-suc (length f) ∙ ap u64 (omega (arith, length-append f (e ∷ []))) in
      let (taken, shown) = w e in
      rw (taken, shown)
        (ap₂ (λ s k. record l { file = f ++ e ∷ []; stdout = s; written = k })
          (sym (shown_of-snoc shows f e)) n)

  write_entries-wrote :
      (writes : Writes) (batch f : List Entry) (l : Logger)
      → WorksFor writes
      → write_entries writes batch (wrote f l) ≡ wrote (f ++ batch) l
  unfolding write_entries
  write_entries-wrote writes [] f l all = ap (λ g. wrote g l) (sym (append-nil f))
  write_entries-wrote writes (e ∷ batch) f l all =
      ap (write_entries writes batch) (write_entry-wrote writes e f l all)
      ∙ write_entries-wrote writes batch (f ++ e ∷ []) l all
      ∙ ap (λ g. wrote g l) (append_assoc f (e ∷ []) batch)

  flush_batch-open :
      (writes : Writes) (batch : List Entry) (l : Logger)
      → l.file_open ≡ true
      → flush_batch writes batch l ≡ write_entries writes batch l
  unfolding flush_batch
  flush_batch-open writes batch l opened = simp opened refl

  flush_all :
      (writes : Writes) (l : Logger)
      → WorksFor writes
      → l.file_open ≡ true
      → l.stdout ≡ shown_of shows l.file
      → l.written ≡ u64 (length l.file)
      → flush writes l ≡ record (wrote (l.file ++ l.batch) l) { batch = [] }
  unfolding flush_batch
  flush_all writes l all opened shown counted =
      let is : l ≡ wrote l.file l =
        ap₂ (λ s w. record l { stdout = s; written = w }) shown counted in
      ap (λ (t : Logger). record t { batch = [] })
        (flush_batch-open writes l.batch l opened
          ∙ ap (write_entries writes l.batch) is
          ∙ write_entries-wrote writes l.batch l.file l all)

  -- A flush, or an empty batch.
  abbrev pub IsFlushed : List Entry → Logger → Logger → Type 0
  IsFlushed past l t = Refines past t × (t.phase ≡ l.phase) × (t.batch ≡ []) × (t.file_open ≡ true)

  pub flush-IsFlushed :
      (writes : Writes) (past : List Entry) (l : Logger)
      → WorksFor writes
      → l.file_open ≡ true
      → Holds past l
      → IsFlushed past l (flush writes l)
  flush-IsFlushed writes past l all opened v =
      let (n, a, d, reads) = v.kept in
      subst (IsFlushed past l) (sym (flush_all writes l all opened v.shown v.counted)) (
        record {
          holds = record {
            kept = (
              n,
              subst (λ k. Accepts past k n) (sym (append_assoc l.file l.batch l.buffer)) a,
              d,
              reads,
            );
            shown = refl;
            counted = refl;
            bounded = v.bounded;
          };
          small = λ e. omega arith;
          flushed = λ e. refl;
          opened = λ e. opened;
        },
        refl,
        refl,
        opened,
      )

  -- The head of the queue goes to the end of the batch.
  pub take_entry-Holds :
      (past : List Entry) (e : Entry) (rest : List Entry) (l : Logger)
      → l.buffer ≡ e ∷ rest
      → Holds past l
      → Holds past (record l { buffer = rest; batch = l.batch ++ e ∷ [] })
  take_entry-Holds past e rest l b v =
      let (n, a, d, reads) = v.kept in
      record {
        kept = (
          n,
          subst (λ k. Accepts past k n)
              (ap (λ q. l.file ++ (l.batch ++ q)) b
                ∙ ap (λ q. l.file ++ q) (sym (append_assoc l.batch (e ∷ []) rest)))
              a,
          d,
          reads,
        );
        shown = v.shown;
        counted = v.counted;
        bounded = omega (arith, ap length b, v.bounded);
      }
