-- ===== src/Fetcher/TempStore/Download.antt =====
-- internal/fetcher/store_tempfile.go: what the downloader has put on disk, at any time.
use fuse_stream_mvp.Base.{
  ℕ, zero, suc, ◌≤◌, ◌≡◌, refl, ◌∙◌, sym, ap, ◌≢◌, ◌⊎◌, inl, inr, Bool, true, false, ◌||◌, not,
  Option, none, some, List, [], ◌∷◌, ◌++◌, arith, ◌==◌, if◌then◌else◌, length, take, drop,
  length-append, Bool-cases, Option-cases,
}
use fuse_stream_mvp.Base.Maps.{Text}
use fuse_stream_mvp.Fetcher.TempStore.{
  StoreError, TempStore, new_temp_store, set_error, write_failed, body_failed, ctx_done, BodyEnd,
  goes_on, at_eof, broken, Piece, write_piece, end_piece, after, open_failed, request_failed,
  unexpected_status, take_piece, ended, download_loop, Response, downloader,
}
use mathlib.Core.List.{append_assoc, append-nil}

-- A body that delivers `rest`: its pieces are consecutive parts, and it ends only when all has come.
abbrev pub Delivers : List ℕ → List Piece → Type 0
Delivers rest [] = Unit {0}
Delivers rest (p ∷ ps) =
    (rest' : List ℕ) × (rest ≡ p.bytes ++ rest') × (p.end ≡ at_eof → rest' ≡ []) × Delivers rest' ps

-- The disk holds a part of the file from its start, and at least as much as is reported. A download
-- that has ended has all of the file, or has left an error.
pub record IsSound (file : List ℕ) (s : TempStore) : Type 0 where
  pub sized : s.size ≡ length file
  pub part : (rest : List ℕ) × (file ≡ s.disk ++ rest)
  pub reported : s.downloaded ≤ length s.disk
  pub over : s.done ≡ true → ((s.disk ≡ file) × (s.downloaded ≡ s.size)) ⊎ (s.err ≢ none)

-- In the loop: what is missing on disk is `rest`.
abbrev IsRunning : List ℕ → List ℕ → ℕ → TempStore → Type 0
IsRunning file rest total s =
    (s.size ≡ length file)
    × (file ≡ s.disk ++ rest)
    × (total ≡ length s.disk)
    × (s.downloaded ≡ total)
    × (s.done ≡ false)

take-split : (k : ℕ) (xs : List ℕ) → xs ≡ take k xs ++ drop k xs
unfolding take drop
take-split zero xs = refl
take-split (suc k) [] = refl
take-split (suc k) (x ∷ xs) = ap (◌∷◌ x) (take-split k xs)

module _ (file : List ℕ) where
  running-IsSound :
      (rest : List ℕ) (total : ℕ) (s : TempStore) → IsRunning file rest total s → IsSound file s
  running-IsSound rest total s (sized, part, all, seen, on) = record {
    sized = sized;
    part = (rest, part);
    reported = omega arith;
    over = λ e. cc;
  }

  -- An error leaves a sound store.
  failed-IsSound :
      (e : StoreError) (rest : List ℕ) (s : TempStore)
      → s.size ≡ length file
      → file ≡ s.disk ++ rest
      → s.downloaded ≤ length s.disk
      → IsSound file (ended (set_error e s))
  unfolding set_error
  failed-IsSound e rest s sized part seen = record {
    sized = sized;
    part = (rest, part);
    reported = seen;
    over = λ f. inr (λ g. cc);
  }

  error-IsSound :
      (e : StoreError) (rest : List ℕ) (total : ℕ) (s : TempStore)
      → IsRunning file rest total s
      → IsSound file (ended (set_error e s))
  error-IsSound e rest total s (sized, part, all, seen, on) =
      failed-IsSound e rest s sized part (omega arith)

  -- What a round may leave: a download that has returned, or one that goes on with `rest` missing.
  abbrev Continues : List ℕ → TempStore × Option ℕ → Type 0
  Continues rest (s, none) = IsSound file (ended s)
  Continues rest (s, some more) = IsRunning file rest more s

  empty_of_length : (xs : List ℕ) → (length xs == 0) ≡ true → xs ≡ []
  empty_of_length [] e = refl
  empty_of_length (x ∷ xs) e = absurd (ground arith)

  write_piece-Continues :
      (p : Piece) (rest rest' : List ℕ) (total : ℕ) (s : TempStore)
      → rest ≡ p.bytes ++ rest'
      → IsRunning file rest total s
      → Continues rest' (write_piece p total s)
  unfolding write_piece
  write_piece-Continues p rest rest' total s e (sized, part, all, seen, on) =
      elim (Bool-cases (length p.bytes == 0)) [
        | inl nothing ↦
            let same : rest ≡ rest' = e ∙ ap (λ b. b ++ rest') (empty_of_length p.bytes nothing) in
            rw (nothing, write_piece) (sized, part ∙ ap (λ r. s.disk ++ r) same, all, seen, on)
        | inr some_bytes ↦ elim (Option-cases p.write_limit) [
          | inl fits ↦
              rw (some_bytes, fits, write_piece)
                (
                  sized,
                  part ∙ ap (λ r. s.disk ++ r) e ∙ sym (append_assoc s.disk p.bytes rest'),
                  omega (arith, length-append s.disk p.bytes),
                  refl,
                  on,
                )
          | inr (k, f) ↦
              let split : rest ≡ take k p.bytes ++ (drop k p.bytes ++ rest') =
                e
                ∙ ap (λ b. b ++ rest') (take-split k p.bytes)
                ∙ append_assoc (take k p.bytes) (drop k p.bytes) rest' in
              rw (some_bytes, f, write_piece)
                (failed-IsSound write_failed (drop k p.bytes ++ rest')
                  (record s { disk = s.disk ++ take k p.bytes }) sized
                  (part
                    ∙ ap (λ r. s.disk ++ r) split
                    ∙ sym (append_assoc s.disk (take k p.bytes) (drop k p.bytes ++ rest')))
                  (omega (arith, length-append s.disk (take k p.bytes))))
        ]
      ]

  end_piece-Continues :
      (end : BodyEnd) (rest : List ℕ) (total : ℕ) (s : TempStore)
      → (end ≡ at_eof → rest ≡ [])
      → IsRunning file rest total s
      → Continues rest (end_piece end total s)
  unfolding end_piece
  end_piece-Continues goes_on rest total s last v = v
  end_piece-Continues broken rest total s last v = error-IsSound body_failed rest total s v
  end_piece-Continues at_eof rest total s last (sized, part, all, seen, on) =
      let whole : s.disk ≡ file =
        sym (part ∙ ap (λ r. s.disk ++ r) (last refl) ∙ append-nil s.disk) in
      record {
        sized = sized;
        part = (rest, part);
        reported = omega (arith, ap length whole);
        over = λ f. inl (whole, refl);
      }

  after_write :
      (end : BodyEnd) (rest : List ℕ) (r : TempStore × Option ℕ)
      → (end ≡ at_eof → rest ≡ [])
      → Continues rest r
      → Continues rest (after end r)
  unfolding after
  after_write end rest (s, none) last v = v
  after_write end rest (s, some more) last v = end_piece-Continues end rest more s last v

  either :
      (b : Bool) (rest : List ℕ) (r r' : TempStore × Option ℕ)
      → Continues rest r
      → Continues rest r'
      → Continues rest (if b then r else r')
  either true rest r r' v w = v
  either false rest r r' v w = w

  take_piece-Continues :
      (p : Piece) (rest rest' : List ℕ) (total : ℕ) (s : TempStore)
      → rest ≡ p.bytes ++ rest'
      → (p.end ≡ at_eof → rest' ≡ [])
      → IsRunning file rest total s
      → Continues rest' (take_piece p total s)
  unfolding take_piece
  take_piece-Continues p rest rest' total s e last v =
      either p.ctx_done rest' (set_error ctx_done s, none) (after p.end (write_piece p total s))
        (error-IsSound ctx_done rest total s v)
        (after_write p.end rest' (write_piece p total s) last
          (write_piece-Continues p rest rest' total s e v))

  goes_on-IsSound :
      (rest : List ℕ) (ps : List Piece) (r : TempStore × Option ℕ)
      → Continues rest r
      → ((total : ℕ) (s : TempStore)
          → IsRunning file rest total s
          → IsSound file (download_loop ps total s))
      → IsSound file (elim r.1 [ none ↦ ended r.0 | some more ↦ download_loop ps more r.0 ])
  goes_on-IsSound rest ps (s, none) c loop = c
  goes_on-IsSound rest ps (s, some more) c loop = loop more s c

  loop-IsSound :
      (rest : List ℕ) (ps : List Piece) (total : ℕ) (s : TempStore)
      → Delivers rest ps
      → IsRunning file rest total s
      → IsSound file (download_loop ps total s)
  unfolding download_loop
  loop-IsSound rest [] total s d v = running-IsSound rest total s v
  loop-IsSound rest (p ∷ ps) total s (rest', e, last, d) v =
      goes_on-IsSound rest' ps (take_piece p total s)
        (take_piece-Continues p rest rest' total s e last v)
        λ more s' w. loop-IsSound rest' ps more s' d w

  answered :
      (b : Bool) (s s' : TempStore)
      → IsSound file s
      → IsSound file s'
      → IsSound file (if b then s else s')
  answered true s s' v w = v
  answered false s s' v w = w

-- For a body that delivers the file, with as many of its pieces as have come so far: the disk holds a
-- part of the file from its start and at least as much of it as `downloaded` says, and once the
-- downloader has returned, the file is all on disk and reported, or an error is set.
pub downloader-IsSound :
    (file : List ℕ) (path : Text) (r : Response)
    → Delivers file r.pieces
    → IsSound file (downloader r (new_temp_store (length file) path))
unfolding downloader new_temp_store
downloader-IsSound file path r d =
    let s = new_temp_store (length file) path in
    let failed : (e : StoreError) → IsSound file (ended (set_error e s)) =
      λ e. failed-IsSound file e file s refl refl (omega arith) in
    let loop = loop-IsSound file file r.pieces 0 s d (refl, refl, refl, refl, refl) in
    let response : (status : ℕ)
        → IsSound file (
            if status == 200 || status == 206
            then download_loop r.pieces 0 s
            else ended (set_error (unexpected_status status) s)) =
      λ status.
        answered file (status == 200 || status == 206) (download_loop r.pieces 0 s)
          (ended (set_error (unexpected_status status) s)) loop
          (failed (unexpected_status status)) in
    answered file (not r.opens) (ended (set_error open_failed s)) _ (failed open_failed)
      (elim r.status
        as (λ status. IsSound file (elim status [
          | none ↦ ended (set_error request_failed s)
          | some status ↦
              if status == 200 || status == 206
              then download_loop r.pieces 0 s
              else ended (set_error (unexpected_status status) s)
        ])) [ none ↦ failed request_failed | some status ↦ response status ])
