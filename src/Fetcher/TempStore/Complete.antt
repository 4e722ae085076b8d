-- ===== src/Fetcher/TempStore/Complete.antt =====
-- internal/fetcher/store_tempfile.go: ReadAt once the download is over.
use fuse_stream_mvp.Base.{
  ℕ, ◌+◌, ◌-◌, ◌≤◌, ◌<◌, ◌≡◌, refl, ◌∙◌, sym, ap, inl, inr, true, false, Option, none, some, List,
  [], ◌∷◌, ◌++◌, arith, ltb, ◌==◌, length, take, drop, length-take, length-drop, take_of_length-le,
  ltb-false_of_le, lt→ltb, leb-false_of_lt,
}
use fuse_stream_mvp.Base.Maps.{Text}
use fuse_stream_mvp.Fetcher.TempFiles.{Files}
use fuse_stream_mvp.Fetcher.TempStore.{
  cut_at, eof, TempStore, View, wait_for, after_wait, ready, Moment, returns, file_read_at,
  end_read, read_file, read_at,
}
use mathlib.Core.List.{append-nil, append_assoc}
use fuse_stream_mvp.Fetcher.TempStore.Download.{IsSound}
use fuse_stream_mvp.Fetcher.TempStore.Reads.{disk_answer}
use fuse_stream_mvp.Fetcher.TempStore.{
  Piece, BodyEnd, goes_on, ended, new_temp_store, at_eof, write_piece, after, take_piece, end_piece,
  Response, download_loop, downloader,
}

wait_for_all :
    (want : ℕ) (v : View) (views : List View)
    → v.closing ≡ false
    → want ≤ v.downloaded
    → wait_for want (v ∷ views) ≡ ready
unfolding wait_for
wait_for_all want v views clear h = ground arith

read_file-IsWhole :
    (m : Moment) (want off : ℕ) (files : Files)
    → m.store.file_open ≡ true
    → m.read_limit ≡ none
    → want ≤ length m.store.disk - off
    → (read_file m want off files).1 ≡ returns (take want (drop off m.store.disk)) none
unfolding read_file end_read
read_file-IsWhole m want off files opened works h =
    let bytes = take want (drop off m.store.disk) in
    let full : ltb (length bytes) want ≡ false =
      ltb-false_of_le (length bytes) want
        (omega (arith, length-take want (drop off m.store.disk), length-drop off m.store.disk)) in
    rw (opened, works, full) refl

read_at_ready :
    (views : List View) (m : Moment) (len off : ℕ) (files : Files)
    → off < m.store.size
    → wait_for (cut_at m.store.size (off + len)) views ≡ ready
    → read_at false false views m len off files
      ≡ read_file m (cut_at m.store.size (off + len) - off) off files
unfolding read_at after_wait
read_at_ready views m len off files h e = rw (leb-false_of_lt m.store.size off h, e) refl

-- After a download that is over without an error and has left the whole file on the disk (the store
-- is sound for this file), with no Close under way, a disk that works and an offset inside the
-- file, ReadAt of a TempFileStore gives all the bytes from the offset on, up to the length asked
-- for or the end of the file, without an error.
pub read_at-IsWhole :
    (file : List ℕ) (v : View) (views : List View) (m : Moment) (len off : ℕ) (files : Files)
    → IsSound file m.store
    → m.store.done ≡ true
    → m.store.err ≡ none
    → m.store.file_open ≡ true
    → m.read_limit ≡ none
    → v.closing ≡ false
    → v.downloaded ≡ m.store.downloaded
    → off < length file
    → (read_at false false (v ∷ views) m len off files).1 ≡ returns (take len (drop off file)) none
read_at-IsWhole file v views m len off files sound d fine opened works clear seen inside =
    elim (sound.over d) [
      | inr failed ↦ absurd (failed fine)
      | inl (whole, all) ↦
          let want_end = cut_at m.store.size (off + len) in
          let within : want_end ≤ m.store.size = ground arith in
          let seen_all = wait_for_all want_end v views clear (omega arith) in
          let answer =
            read_file-IsWhole m (want_end - off) off files opened works
              (omega (arith, ap length whole, sound.sized, within)) in
          ap (λ r. r.1) (read_at_ready (v ∷ views) m len off files (omega arith) seen_all)
          ∙ answer
          ∙ ap (λ b. returns b none)
              (disk_answer file m.store.disk [] (sym whole ∙ sym (append-nil m.store.disk))
                m.store.size len off sound.sized (omega arith)
                (omega (arith, ap length whole, sound.sized, within)))
    ]

abbrev pub joined : List (List ℕ) → List ℕ → List ℕ
joined [] last = last
joined (part ∷ parts) last = part ++ joined parts last

abbrev read_of : List ℕ → BodyEnd → Piece
read_of bytes end = record { ctx_done = false; bytes = bytes; write_limit = none; end = end }

-- The reads of a body that comes in parts, the last of them, which may be empty, with the end; each
-- part can be written.
abbrev pub reads_of : List (List ℕ) → List ℕ → List Piece
reads_of [] last = read_of last at_eof ∷ []
reads_of (part ∷ parts) last = read_of part goes_on ∷ reads_of parts last

abbrev pub body_in : List (List ℕ) → List ℕ → Response
body_in parts last = record { opens = true; status = some 200; pieces = reads_of parts last }

-- The write of a part, with the counts that it leaves.
write_piece-writes :
    (bytes : List ℕ) (end : BodyEnd) (total : ℕ) (s : TempStore)
    → (d : ℕ) × (more : ℕ) × (write_piece (read_of bytes end) total s
        ≡ (record s { disk = s.disk ++ bytes; downloaded = d }, some more))
unfolding write_piece
write_piece-writes [] end total s =
    (s.downloaded, total, ap (λ b. (record s { disk = b }, some total)) (sym (append-nil s.disk)))
write_piece-writes (b ∷ bytes) end total s =
    let some_bytes : (length (b ∷ bytes) == 0) ≡ false = ground arith in
    (total + length (b ∷ bytes), total + length (b ∷ bytes), rw some_bytes refl)

-- What a complete body leaves, whatever its length.
abbrev complete : List ℕ → TempStore → TempStore
complete bytes s = record s { disk = s.disk ++ bytes; downloaded = s.size; done = true }

abbrev continue_loop : List Piece → TempStore × Option ℕ → TempStore
continue_loop ps (s, next) = elim next [ none ↦ ended s | some more ↦ download_loop ps more s ]

download_loop-complete :
    (parts : List (List ℕ)) (last : List ℕ) (total : ℕ) (s : TempStore)
    → download_loop (reads_of parts last) total s ≡ complete (joined parts last) s
unfolding download_loop take_piece after end_piece
download_loop-complete [] last total s =
    let (d, more, written) = write_piece-writes last at_eof total s in
    ap (λ w. continue_loop [] (after at_eof w)) written
download_loop-complete (part ∷ parts) last total s =
    let (d, more, written) = write_piece-writes part goes_on total s in
    let next : TempStore = record s { disk = s.disk ++ part; downloaded = d } in
    ap (λ w. continue_loop (reads_of parts last) (after goes_on w)) written
    ∙ download_loop-complete parts last more next
    ∙ ap (λ b. record s { disk = b; downloaded = s.size; done = true })
        (append_assoc s.disk part (joined parts last))

downloader-complete :
    (parts : List (List ℕ)) (last : List ℕ) (size : ℕ) (path : Text)
    → downloader (body_in parts last) (new_temp_store size path)
      ≡ complete (joined parts last) (new_temp_store size path)
unfolding downloader new_temp_store
downloader-complete parts last size path =
    download_loop-complete parts last 0 (new_temp_store size path)

end_read_short :
    (size : ℕ) (bytes : List ℕ)
    → 0 < length bytes
    → length bytes ≤ size
    → end_read size 0 bytes (some eof) ≡ returns bytes none
unfolding end_read
end_read_short size bytes h k = ground arith

-- os.File.ReadAt meets io.EOF behind the bytes that there are, which end_read takes for a success.
read_file_short :
    (m : Moment) (want : ℕ) (files : Files)
    → m.store.file_open ≡ true
    → m.read_limit ≡ none
    → 0 < length m.store.disk
    → length m.store.disk < want
    → want ≤ m.store.size
    → (read_file m want 0 files).1 ≡ returns m.store.disk none
unfolding read_file end_read drop
read_file_short m want files opened works some_bytes short h =
    let disk = m.store.disk in
    let all : take want disk ≡ disk = take_of_length-le want disk (omega arith) in
    let eof_comes : ltb (length disk) want ≡ true = lt→ltb (length disk) want short in
    let got : file_read_at m want 0 ≡ (disk, some eof) = rw (works, all, eof_comes) refl in
    rw opened (
      ap (λ g. end_read m.store.size 0 g.0 g.1) got
      ∙ end_read_short m.store.size disk some_bytes (omega arith))

-- A body of status 200 with at least one byte, which comes in any number of reads, each of which
-- can be written, and ends before the size of the file: the download is over without an error and
-- counts as complete, and then, with no Close under way and a disk that works, a read of the whole
-- file gives the bytes that came, without an error.
pub read_at_short_body :
    (parts : List (List ℕ)) (last : List ℕ) (size : ℕ) (path : Text) (v : View) (m : Moment)
    (files : Files)
    → 0 < length (joined parts last)
    → length (joined parts last) < size
    → m.store ≡ downloader (body_in parts last) (new_temp_store size path)
    → m.read_limit ≡ none
    → v.closing ≡ false
    → v.downloaded ≡ m.store.downloaded
    → (m.store.err ≡ none)
      × (m.store.downloaded ≡ size)
      × ((read_at false false (v ∷ []) m size 0 files).1 ≡ returns (joined parts last) none)
unfolding new_temp_store
read_at_short_body parts last size path v m files some_bytes short made works clear seen =
    let body = joined parts last in
    let s = made ∙ downloader-complete parts last size path in
    let sized : m.store.size ≡ size = ap (λ t. t.size) s in
    let reported : m.store.downloaded ≡ size = ap (λ t. t.downloaded) s in
    let disk : m.store.disk ≡ body = ap (λ t. t.disk) s in
    let on_disk : length m.store.disk ≡ length body = ap length disk in
    let want : cut_at m.store.size (0 + size) - 0 ≡ size = ground arith in
    let ready_eq = wait_for_all (cut_at m.store.size (0 + size)) v [] clear (ground arith) in
    (
      ap (λ t. t.err) s,
      reported,
      ap (λ r. r.1) (read_at_ready (v ∷ []) m size 0 files (omega arith) ready_eq)
          ∙ ap (λ w. (read_file m w 0 files).1) want
          ∙ read_file_short m size files (ap (λ t. t.file_open) s) works (omega arith) (omega arith)
              (omega arith)
          ∙ ap (λ b. returns b none) disk,
    )
