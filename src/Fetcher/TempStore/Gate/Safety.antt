-- ===== src/Fetcher/TempStore/Gate/Safety.antt =====
-- internal/fetcher/store_tempfile.go: the file is never closed under a reader.
use fuse_stream_mvp.Base.{
  ℕ, ◌+◌, ◌≤◌, ◌≡◌, refl, ◌∙◌, ◌≢◌, ◌⊎◌, inl, inr, Bool, true, false, Option, none, some, [], ◌∷◌,
  arith, ==_iff,
}
use fuse_stream_mvp.Base.Maps.{
  Map, get, put, delete, nat_eq, IsMap, get-put, get-delete, put-IsMap, delete-IsMap, delete_absent,
}
use fuse_stream_mvp.Fetcher.TempStore.Gate.{
  ReaderPc, checked, registered, inside, ClosePhase, not_closed, swapped, drained, timed_out, shut,
  Gate, new_gate, Move, checks, registers, rechecks, leaves, calls_close, sets_closing, ends_drain,
  gives_up, closes_file, reader_checks, reader_registers, reader_rechecks, reader_leaves,
  close_calls, close_sets_closing, close_ends_drain, close_gives_up, close_file, step, Reaches,
  here, moves,
}

-- What a reader adds to the counter.
abbrev weight : Option ReaderPc → ℕ
weight none = 0
weight (some checked) = 0
weight (some registered) = 1
weight (some inside) = 1

busy : Map ℕ ReaderPc → ℕ
busy [] = 0
busy ((i, pc) ∷ m) = weight (some pc) + busy m

busy-put :
    (i : ℕ) (pc : ReaderPc) (m : Map ℕ ReaderPc)
    → busy (put i pc m) + weight (get i m) ≡ busy m + weight (some pc)
unfolding busy put get
busy-put i pc [] = omega arith
busy-put i pc ((j, q) ∷ m) = ground (arith, busy-put i pc m)

busy-delete : (i : ℕ) (m : Map ℕ ReaderPc) → IsMap m → busy (delete i m) + weight (get i m) ≡ busy m
unfolding busy delete get
busy-delete i [] u = omega arith
busy-delete i ((j, q) ∷ m) u = ground (arith, busy-delete i m u.1, delete_absent i m, ==_iff j i)

busy-get : (i : ℕ) (m : Map ℕ ReaderPc) → weight (get i m) ≤ busy m
unfolding busy get
busy-get i [] = omega arith
busy-get i ((j, q) ∷ m) = ground (arith, busy-get i m)

-- Close has seen the counter at 0.
abbrev is_past_drain : ClosePhase → Bool
is_past_drain drained = true
is_past_drain shut = true
is_past_drain _ = false

abbrev is_before_flag : ClosePhase → Bool
is_before_flag not_closed = true
is_before_flag swapped = true
is_before_flag _ = false

pub record Inv (s : Gate) : Type 0 where
  unique : IsMap s.readers_at
  counted : s.readers ≡ busy s.readers_at
  flagged : is_before_flag s.phase ≡ false → s.closing ≡ true
  entered : (s.phase ≡ not_closed) ⊎ (s.closed ≡ true)
  alone : (i : ℕ) → is_past_drain s.phase ≡ true → get i s.readers_at ≢ some inside
  held : s.phase ≢ shut → s.file_open ≡ true

new_gate-Inv : Inv new_gate
unfolding busy get
new_gate-Inv = record {
  unique = tt;
  counted = refl;
  flagged = λ e. cc;
  entered = inl refl;
  alone = λ i e. cc;
  held = λ e. refl;
}

reader_checks-Inv : (i : ℕ) (s t : Gate) → Inv s → reader_checks i s ≡ some t → Inv t
unfolding reader_checks
reader_checks-Inv i s t v e = record {
  unique = ground (arith, put-IsMap i checked s.readers_at v.unique);
  counted = ground (arith, busy-put i checked s.readers_at);
  flagged = ground (arith, v.flagged);
  entered = ground arith;
  alone = λ j. ground (arith, v.alone j, get-put j i checked s.readers_at);
  held = ground (arith, v.held);
}

reader_registers-Inv : (i : ℕ) (s t : Gate) → Inv s → reader_registers i s ≡ some t → Inv t
unfolding reader_registers
reader_registers-Inv i s t v e = record {
  unique = ground (arith, put-IsMap i registered s.readers_at v.unique);
  counted = ground (arith, busy-put i registered s.readers_at);
  flagged = ground (arith, v.flagged);
  entered = ground arith;
  alone = λ j. ground (arith, v.alone j, get-put j i registered s.readers_at);
  held = ground (arith, v.held);
}

reader_rechecks-Inv : (i : ℕ) (s t : Gate) → Inv s → reader_rechecks i s ≡ some t → Inv t
unfolding reader_rechecks
reader_rechecks-Inv i s t v e = record {
  unique =
      ground
        (arith, put-IsMap i inside s.readers_at v.unique, delete-IsMap i s.readers_at v.unique);
  counted = ground (arith, busy-put i inside s.readers_at, busy-delete i s.readers_at v.unique);
  flagged = ground (arith, v.flagged);
  entered = ground arith;
  alone = λ j.
      ground
        (arith, v.alone j, v.flagged, get-put j i inside s.readers_at, get-delete j i s.readers_at);
  held = ground (arith, v.held);
}

reader_leaves-Inv : (i : ℕ) (s t : Gate) → Inv s → reader_leaves i s ≡ some t → Inv t
unfolding reader_leaves
reader_leaves-Inv i s t v e = record {
  unique = ground (arith, delete-IsMap i s.readers_at v.unique);
  counted = ground (arith, busy-delete i s.readers_at v.unique);
  flagged = ground (arith, v.flagged);
  entered = ground arith;
  alone = λ j. ground (arith, v.alone j, get-delete j i s.readers_at);
  held = ground (arith, v.held);
}

close_ends_drain-Inv : (s t : Gate) → Inv s → close_ends_drain s ≡ some t → Inv t
unfolding close_ends_drain
close_ends_drain-Inv s t v e = record {
  unique = ground (arith, v.unique);
  counted = ground arith;
  flagged = ground (arith, v.flagged);
  entered = ground arith;
  alone = λ j. ground (arith, v.alone j, busy-get j s.readers_at);
  held = ground (arith, v.held);
}

close-Inv :
    (s t : Gate)
    → Inv s
    → (close_calls s ≡ some t)
      ⊎ ((close_sets_closing s ≡ some t) ⊎ ((close_gives_up s ≡ some t) ⊎ (close_file s ≡ some t)))
    → Inv t
unfolding close_calls close_sets_closing close_gives_up close_file
close-Inv s t v e = record {
  unique = ground (arith, v.unique);
  counted = ground arith;
  flagged = ground (arith, v.flagged);
  entered = ground arith;
  alone = λ j. ground (arith, v.alone j);
  held = ground (arith, v.held);
}

step-Inv : (m : Move) (s t : Gate) → Inv s → step m s ≡ some t → Inv t
unfolding step
step-Inv (checks i) s t v e = reader_checks-Inv i s t v e
step-Inv (registers i) s t v e = reader_registers-Inv i s t v e
step-Inv (rechecks i) s t v e = reader_rechecks-Inv i s t v e
step-Inv (leaves i) s t v e = reader_leaves-Inv i s t v e
step-Inv calls_close s t v e = close-Inv s t v (inl e)
step-Inv sets_closing s t v e = close-Inv s t v (inr (inl e))
step-Inv ends_drain s t v e = close_ends_drain-Inv s t v e
step-Inv gives_up s t v e = close-Inv s t v (inr (inr (inl e)))
step-Inv closes_file s t v e = close-Inv s t v (inr (inr (inr e)))

pub Reaches-Inv : {s t : Gate} → Inv s → Reaches s t → Inv t
Reaches-Inv v here = v
Reaches-Inv v (moves {t} {u} m e r) = step-Inv m t u (Reaches-Inv v r) e

-- Whatever the readers and the calls of Close do, in any order: a reader that is past both checks
-- has the file open under it.
pub inside_file_open :
    (s : Gate) (i : ℕ) → Reaches new_gate s → get i s.readers_at ≡ some inside → s.file_open ≡ true
inside_file_open s i r e = let v = Reaches-Inv new_gate-Inv r in ground (arith, v.alone i, v.held)

step-timed_out :
    (m : Move) (s t : Gate)
    → s.phase ≡ timed_out
    → s.closed ≡ true
    → step m s ≡ some t
    → (t.phase ≡ timed_out) × (t.closed ≡ true) × (t.file_open ≡ s.file_open)
unfolding step reader_checks reader_registers reader_rechecks reader_leaves close_calls
    close_sets_closing close_ends_drain close_gives_up close_file
step-timed_out (checks i) s t p c e = ground arith
step-timed_out (registers i) s t p c e = ground arith
step-timed_out (rechecks i) s t p c e = ground arith
step-timed_out (leaves i) s t p c e = ground arith
step-timed_out calls_close s t p c e = ground arith
step-timed_out sets_closing s t p c e = ground arith
step-timed_out ends_drain s t p c e = ground arith
step-timed_out gives_up s t p c e = ground arith
step-timed_out closes_file s t p c e = ground arith

Reaches-timed_out :
    {s t : Gate}
    → s.phase ≡ timed_out
    → s.closed ≡ true
    → Reaches s t
    → (t.phase ≡ timed_out) × (t.closed ≡ true) × (t.file_open ≡ s.file_open)
Reaches-timed_out p c here = (p, c, refl)
Reaches-timed_out p c (moves {t} {u} m e r) =
    let (q, d, f) = Reaches-timed_out p c r in
    let (q', d', f') = step-timed_out m t u q d e in (q', d', f' ∙ f)

-- Once a call of Close has timed out on the readers, the file stays open for good, whatever the
-- readers do and however often Close is called again.
pub timed_out_stays_open :
    (s t : Gate)
    → Reaches new_gate s
    → s.phase ≡ timed_out
    → Reaches s t
    → (t.file_open ≡ true) × (t.phase ≡ timed_out)
timed_out_stays_open s t r p r' =
    let v = Reaches-Inv new_gate-Inv r in
    let (q, d, f) = Reaches-timed_out p (ground (arith, v.entered)) r' in
    (f ∙ v.held (ground arith), q)
