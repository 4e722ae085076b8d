-- ===== src/Fetcher/TempStore/Reads.antt =====
-- internal/fetcher/store_tempfile.go: what ReadAt gives, and when it returns.
use fuse_stream_mvp.Base.{
  ℕ, zero, suc, ◌+◌, ◌-◌, ◌≤◌, ◌<◌, ◌≡◌, refl, ◌∙◌, sym, ap, inl, inr, Bool, ◌||◌, Option, none,
  some, List, [], ◌∷◌, ◌++◌, arith, ltb, leb, ◌==◌, length, take, drop, length-drop,
  take_of_length-le, Bool-cases, either, either_of, ◌&&◌, Option-cases,
}
use fuse_stream_mvp.Fetcher.TempFiles.{Files}
use fuse_stream_mvp.Fetcher.TempStore.{
  StoreError, cut_at, eof, View, wait_for, after_wait, Waited, ready, still_waiting, gives_up,
  Moment, Read, returns, waits, end_read, read_file, read_at,
}
use fuse_stream_mvp.Fetcher.TempStore.Download.{IsSound}

-- Without an error, the bytes of the file from `off` on, `len` of them or what there is; with one, a
-- part of these from the start.
abbrev pub IsServed : List ℕ → ℕ → ℕ → Read → Type 0
IsServed file len off (returns b none) = b ≡ take len (drop off file)
IsServed file len off (returns b (some e)) = (k : ℕ) × (b ≡ take k (take len (drop off file)))
IsServed file len off waits = Unit {0}

-- Every round of the wait saw no more than the disk holds at the time of the read.
abbrev pub AllSeen : List View → ℕ → Type 0
AllSeen [] n = Unit {0}
AllSeen (v ∷ vs) n = (v.downloaded ≤ n) × AllSeen vs n

drop-append_le : (n : ℕ) (xs ys : List ℕ) → n ≤ length xs → drop n (xs ++ ys) ≡ drop n xs ++ ys
unfolding drop
drop-append_le zero xs ys h = refl
drop-append_le (suc n) [] ys h = absurd (ground arith)
drop-append_le (suc n) (x ∷ xs) ys h = drop-append_le n xs ys (omega arith)

take-append_le : (n : ℕ) (xs ys : List ℕ) → n ≤ length xs → take n (xs ++ ys) ≡ take n xs
unfolding take
take-append_le zero xs ys h = refl
take-append_le (suc n) [] ys h = absurd (ground arith)
take-append_le (suc n) (x ∷ xs) ys h = ap (◌∷◌ x) (take-append_le n xs ys (omega arith))

module _ (file disk rest : List ℕ) (e : file ≡ disk ++ rest) where
  -- A part that the disk has is a part of the file.
  take-drop_disk :
      (n off : ℕ)
      → off ≤ length disk
      → n ≤ length disk - off
      → take n (drop off disk) ≡ take n (drop off file)
  take-drop_disk n off h k = sym (
      ap (λ f. take n (drop off f)) e
      ∙ ap (take n) (drop-append_le off disk rest h)
      ∙ take-append_le n (drop off disk) rest (omega (arith, length-drop off disk)))

  pub disk_answer :
      (size len off : ℕ)
      → size ≡ length file
      → off < size
      → cut_at size (off + len) ≤ length disk
      → take (cut_at size (off + len) - off) (drop off disk) ≡ take len (drop off file)
  disk_answer size len off sized h w = elim (Bool-cases (ltb size (off + len))) [
    | inl past ↦
        let all : size ≤ length disk = ground arith in
        let n = size - off in
        rw past (
          take-drop_disk n off (omega arith) (omega arith)
          ∙ take_of_length-le n (drop off file) (omega (arith, length-drop off file))
          ∙ sym (take_of_length-le len (drop off file) (ground (arith, length-drop off file))))
    | inr fits ↦
        let all : off + len ≤ length disk = ground arith in
        let n : (off + len) - off ≡ len = omega arith in
        rw (fits, n) (take-drop_disk len off (omega arith) (omega arith))
  ]

wait_for-ready :
    (want n : ℕ) (views : List View) → AllSeen views n → wait_for want views ≡ ready → want ≤ n
unfolding wait_for
wait_for-ready want n [] seen e = absurd (ground arith)
wait_for-ready want n (v ∷ vs) (seen, seen') e =
    let rest = wait_for-ready want n vs seen' in ground arith

-- With any error, a part that is whole is a part.
returns-IsServed :
    (file bytes : List ℕ) (len off : ℕ) (err : Option StoreError)
    → bytes ≡ take len (drop off file)
    → IsServed file len off (returns bytes err)
returns-IsServed file bytes len off none e = e
returns-IsServed file bytes len off (some x) e = (
  length bytes,
  e
      ∙ sym (
          take_of_length-le (length bytes) (take len (drop off file)) (omega (arith, ap length e))),
)

end_read-IsServed :
    (file bytes : List ℕ) (size len off off' : ℕ) (err : Option StoreError)
    → bytes ≡ take len (drop off file)
    → IsServed file len off (end_read size off' bytes err)
unfolding end_read
end_read-IsServed file bytes size len off off' none e = e
end_read-IsServed file bytes size len off off' (some eof) e =
    let P = IsServed file len off in
    either P (ltb 0 (length bytes) && leb (off' + length bytes) size) e
      (either P (off' + length bytes == size) e (returns-IsServed file bytes len off (some eof) e))
end_read-IsServed file bytes size len off off' (some x) e =
    returns-IsServed file bytes len off (some x) e

read_file-IsServed :
    (file : List ℕ) (m : Moment) (len off : ℕ) (files : Files)
    → IsSound file m.store
    → off < m.store.size
    → cut_at m.store.size (off + len) ≤ length m.store.disk
    → IsServed file len off (read_file m (cut_at m.store.size (off + len) - off) off files).1
unfolding read_file end_read take
read_file-IsServed file m len off files v h w =
    let (rest, part) = v.part in
    let whole = disk_answer file m.store.disk rest part m.store.size len off v.sized h w in
    elim (Bool-cases m.store.file_open) [
      | inr shut ↦ rw (shut, read_file) (0, refl)
      | inl opened ↦ elim (Option-cases m.read_limit) [
        | inl works ↦
            rw (opened, works, read_file)
              (end_read-IsServed file _ m.store.size len off off _ whole)
        | inr (k, fails) ↦ rw (opened, fails, read_file) (k, ap (take k) whole)
      ]
    ]

after_wait-IsServed :
    (file : List ℕ) (w : Waited) (m : Moment) (want len off : ℕ) (files : Files)
    → (w ≡ ready → IsServed file len off (read_file m want off files).1)
    → IsServed file len off (after_wait w m want off files).1
unfolding after_wait take
after_wait-IsServed file still_waiting m want len off files answer = _
after_wait-IsServed file (gives_up x) m want len off files answer = (0, refl)
after_wait-IsServed file ready m want len off files answer = answer refl

-- Whatever Close, the downloader, the disk and the caller's context do: where the store that the read
-- meets is sound and has on disk what the rounds of the wait saw, ReadAt without an error gives the
-- bytes of the file from `off` on, `len` of them or those that there are, and with an error a part of
-- these from the start.
pub read_at-IsServed :
    (file : List ℕ) (closing_first closing_again : Bool) (views : List View) (m : Moment)
    (len off : ℕ) (files : Files)
    → IsSound file m.store
    → AllSeen views (length m.store.disk)
    → IsServed file len off (read_at closing_first closing_again views m len off files).1
unfolding read_at take
read_at-IsServed file closing_first closing_again views m len off files v seen =
    let A : Files × Read → Type 0 = λ r. IsServed file len off r.1 in
    either A (closing_first || closing_again) (0, refl)
      (either_of A (leb m.store.size off) (λ e. (0, refl))
        λ inside.
          let want_end = cut_at m.store.size (off + len) in
          after_wait-IsServed file (wait_for want_end views) m (want_end - off) len off files λ e.
            read_file-IsServed file m len off files v (ground arith)
              (wait_for-ready want_end (length m.store.disk) views seen e))
