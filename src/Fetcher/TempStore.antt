-- ===== src/Fetcher/TempStore.antt =====
-- internal/fetcher/store_tempfile.go: a backing store that downloads the whole file to a temp file.
--
-- The download is a list of pieces, one for each read of the response's body: a list that ends is a
-- download that is still under way. A call of ReadAt meets what the two checks of `closing` find, the
-- values that each round of its wait loads, and the store at the time of its read. How the readers and
-- Close wait for one another is modelled in Gate.
pub mod New
pub mod Gate
pub mod Download
pub mod Reads
pub mod Complete
use fuse_stream_mvp.Base.{
  ℕ, zero, suc, ◌+◌, ◌-◌, Bool, true, false, ◌&&◌, ◌||◌, not, Option, none, some, List, [], ◌∷◌,
  ◌++◌, ltb, leb, ◌==◌, if◌then◌else◌, length, take, drop,
}
use fuse_stream_mvp.Base.Maps.{Text}
use fuse_stream_mvp.Base.Words.{inc32, dec32}
use fuse_stream_mvp.Fetcher.TempFiles.{Files, update_access}

-- `closed_error` is fs.ErrClosed.
pub data StoreError : Type 0 where
  eof closed_error ctx_done open_failed request_failed write_failed body_failed read_failed :
      StoreError
  unexpected_status : ℕ → StoreError

-- `disk` is what stands in the temp file; `done` says that doneCh is closed.
pub record TempStore : Type 0 where
  pub size : ℕ
  pub temp_path : Text
  pub downloaded : ℕ
  pub err : Option StoreError
  pub done : Bool
  pub disk : List ℕ
  pub file_open : Bool
  pub ref_count : ℕ
  pub evicted : Bool

unfoldable pub new_temp_store : ℕ → Text → TempStore
new_temp_store size path = record {
  size = size;
  temp_path = path;
  downloaded = 0;
  err = none;
  done = false;
  disk = [];
  file_open = true;
  ref_count = 0;
  evicted = false;
}

unfoldable pub set_error : StoreError → TempStore → TempStore
set_error e s = record s { err = some e }

unfoldable pub inc_ref : TempStore → TempStore
inc_ref s = record s { ref_count = inc32 s.ref_count }

unfoldable pub dec_ref : TempStore → TempStore
dec_ref s = record s { ref_count = dec32 s.ref_count }

-- The callback that EnsureSpaceAvailable makes before it removes the file.
unfoldable pub mark_evicted : TempStore → TempStore
mark_evicted s = record s { evicted = true }

-- How a read of the body ended, besides the bytes that it gave.
pub data BodyEnd : Type 0 where
  goes_on at_eof broken : BodyEnd

-- One round of the download; `write_limit` is the number of bytes after which the write fails.
pub record Piece : Type 0 where
  pub ctx_done : Bool
  pub bytes : List ℕ
  pub write_limit : Option ℕ
  pub end : BodyEnd

-- The total that the next round starts with, or `none` where the download returns.
unfoldable pub write_piece : Piece → ℕ → TempStore → TempStore × Option ℕ
write_piece p total s = if length p.bytes == 0 then (s, some total) else elim p.write_limit [
  | some k ↦ (set_error write_failed (record s { disk = s.disk ++ take k p.bytes }), none)
  | none ↦
      let more = total + length p.bytes in
      (record s { disk = s.disk ++ p.bytes; downloaded = more }, some more)
]

unfoldable pub end_piece : BodyEnd → ℕ → TempStore → TempStore × Option ℕ
end_piece goes_on total s = (s, some total)
end_piece at_eof total s = (record s { downloaded = s.size }, none)
end_piece broken total s = (set_error body_failed s, none)

-- What follows the write.
unfoldable pub after : BodyEnd → TempStore × Option ℕ → TempStore × Option ℕ
after end (s, none) = (s, none)
after end (s, some total) = end_piece end total s

unfoldable pub take_piece : Piece → ℕ → TempStore → TempStore × Option ℕ
take_piece p total s =
    if p.ctx_done then (set_error ctx_done s, none) else after p.end (write_piece p total s)

-- The deferred calls: the downloader has returned.
abbrev pub ended : TempStore → TempStore
ended s = record s { done = true }

unfoldable pub download_loop : List Piece → ℕ → TempStore → TempStore
download_loop [] total s = s
download_loop (p ∷ ps) total s =
    let (s', next) = take_piece p total s in
    elim next [ none ↦ ended s' | some more ↦ download_loop ps more s' ]

-- `status` is `none` where the request fails.
pub record Response : Type 0 where
  pub opens : Bool
  pub status : Option ℕ
  pub pieces : List Piece

unfoldable pub downloader : Response → TempStore → TempStore
downloader r s =
    if not r.opens
    then ended (set_error open_failed s)
    else let opened = record s { disk = [] } in
      elim r.status [
        | none ↦ ended (set_error request_failed opened)
        | some status ↦
            if status == 200 || status == 206
            then download_loop r.pieces 0 opened
            else ended (set_error (unexpected_status status) opened)
      ]

-- The values that one round of the wait in ReadAt loads, in this order; `wait_done` is true where the
-- context ends the wait for the next round.
pub record View : Type 0 where
  pub closing : Bool
  pub downloaded : ℕ
  pub err : Option StoreError
  pub ctx_done : Bool
  pub wait_done : Bool

pub data Waited : Type 0 where
  ready still_waiting : Waited
  gives_up : StoreError → Waited

unfoldable pub wait_for : ℕ → List View → Waited
wait_for want_end [] = still_waiting
wait_for want_end (v ∷ vs) =
    let rest = if v.wait_done then gives_up ctx_done else wait_for want_end vs in
    if v.closing
    then gives_up closed_error
    else if leb want_end v.downloaded
    then ready
    else elim v.err [ some e ↦ gives_up e | none ↦ if v.ctx_done then gives_up ctx_done else rest ]

-- The bytes of a call of ReadAt, their number being its result n, and its error.
pub data Read : Type 0 where
  returns : List ℕ → Option StoreError → Read
  waits : Read

-- What the errors of os.File.ReadAt become.
unfoldable pub end_read : ℕ → ℕ → List ℕ → Option StoreError → Read
end_read size off bytes none = returns bytes none
end_read size off bytes (some eof) =
    if ltb 0 (length bytes) && leb (off + length bytes) size
    then returns bytes none
    else if off + length bytes == size
    then returns bytes none
    else returns bytes (some eof)
end_read size off bytes (some e) = returns bytes (some e)

-- The moment of the read: the store, the clock, and the number of bytes after which the disk fails.
pub record Moment : Type 0 where
  pub store : TempStore
  pub now : ℕ
  pub read_limit : Option ℕ

-- os.File.ReadAt of `want` bytes: fewer come with io.EOF.
abbrev pub file_read_at : Moment → ℕ → ℕ → List ℕ × Option StoreError
file_read_at m want off =
    let bytes = take want (drop off m.store.disk) in
    elim m.read_limit [
      | some k ↦ (take k bytes, some read_failed)
      | none ↦ (bytes, if ltb (length bytes) want then some eof else none)
    ]

unfoldable pub read_file : Moment → ℕ → ℕ → Files → Files × Read
read_file m want off files =
    if not m.store.file_open
    then (files, returns [] (some closed_error))
    else let (bytes, err) = file_read_at m want off in
      (update_access m.store.temp_path m.now files, end_read m.store.size off bytes err)

-- `wantEnd`, cut at the size.
abbrev pub cut_at : ℕ → ℕ → ℕ
cut_at size end = if ltb size end then size else end

unfoldable pub after_wait : Waited → Moment → ℕ → ℕ → Files → Files × Read
after_wait still_waiting m want off files = (files, waits)
after_wait (gives_up e) m want off files = (files, returns [] (some e))
after_wait ready m want off files = read_file m want off files

unfoldable pub read_at : Bool → Bool → List View → Moment → ℕ → ℕ → Files → Files × Read
read_at closing_first closing_again views m len off files =
    if closing_first || closing_again
    then (files, returns [] (some closed_error))
    else if leb m.store.size off
    then (files, returns [] (some eof))
    else let want_end = cut_at m.store.size (off + len) in
      after_wait (wait_for want_end views) m (want_end - off) off files
