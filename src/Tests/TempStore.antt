-- ===== src/Tests/TempStore.antt =====
-- internal/fetcher/store_tempfile.go: a file of six bytes that comes in two pieces.
use fuse_stream_mvp.Base.{ℕ, ◌≡◌, refl, true, false, none, some, List, [], ◌∷◌, arith, take, drop}
use fuse_stream_mvp.Base.Maps.{Text, get, put, nat_eq, text_eq}
use fuse_stream_mvp.Base.Words.{pos}
use fuse_stream_mvp.Fetcher.TempFiles.{
  check_space_available, get_disk_usage, usage_from, ensure_space_available,
}
use fuse_stream_mvp.Fetcher.TempStore.{
  TempStore, new_temp_store, Piece, goes_on, at_eof, write_piece, end_piece, after, take_piece,
  download_loop, Response, downloader, View, Moment, returns, read_at,
}
use fuse_stream_mvp.Fetcher.TempStore.New.{
  Host, created, make_store, after_ensured, new_temp_file_store, IsRegistered,
  new_temp_file_store-IsRegistered,
}
use fuse_stream_mvp.Fetcher.TempStore.Gate.{
  Gate, new_gate, inside, timed_out, checks, registers, rechecks, calls_close, sets_closing,
  gives_up, reader_checks, reader_registers, reader_rechecks, close_calls, close_sets_closing,
  close_gives_up, step, Reaches, here, moves,
}
use fuse_stream_mvp.Fetcher.TempStore.Gate.Safety.{inside_file_open, timed_out_stays_open}
use fuse_stream_mvp.Fetcher.TempStore.Download.{Delivers, IsSound, downloader-IsSound}
use fuse_stream_mvp.Fetcher.TempStore.Reads.{IsServed, read_at-IsServed}
use fuse_stream_mvp.Fetcher.TempStore.Complete.{body_in, read_at-IsWhole, read_at_short_body}
use fuse_stream_mvp.Tests.TempFiles.{roomy}

abbrev six_bytes : List ℕ
six_bytes = 20 ∷ 21 ∷ 22 ∷ 23 ∷ 24 ∷ 25 ∷ []

abbrev piece : List ℕ → Piece
piece bytes = record { ctx_done = false; bytes = bytes; write_limit = none; end = goes_on }

abbrev two_pieces : Response
two_pieces = record {
  opens = true;
  status = some 206;
  pieces = piece (20 ∷ 21 ∷ 22 ∷ 23 ∷ []) ∷ record (piece (24 ∷ 25 ∷ [])) { end = at_eof } ∷ [];
}

abbrev temp_path : Text
temp_path = 7 ∷ []

abbrev store : TempStore
store = downloader two_pieces (new_temp_store 6 temp_path)

two_pieces-Delivers : Delivers six_bytes two_pieces.pieces
two_pieces-Delivers = (24 ∷ 25 ∷ [], refl, λ e. ground arith, ([], refl, λ e. refl, _))

downloader-IsSound_example : IsSound six_bytes store
downloader-IsSound_example = downloader-IsSound six_bytes temp_path two_pieces two_pieces-Delivers

store_done : store.done ≡ true
unfolding downloader download_loop take_piece write_piece after end_piece new_temp_store
store_done = refl

store_err : store.err ≡ none
unfolding downloader download_loop take_piece write_piece after end_piece new_temp_store
store_err = refl

store_open : store.file_open ≡ true
unfolding downloader download_loop take_piece write_piece after end_piece new_temp_store
store_open = refl

abbrev moment : Moment
moment = record { store = store; now = 3; read_limit = none }

-- A round before any byte has come, and one after the download.
abbrev early : View
early = record { closing = false; downloaded = 0; err = none; ctx_done = false; wait_done = false }

abbrev late : View
late = record {
  closing = false;
  downloaded = store.downloaded;
  err = store.err;
  ctx_done = false;
  wait_done = false;
}

read_at-IsServed_example :
    IsServed six_bytes 4 1 (read_at false false (early ∷ late ∷ []) moment 4 1 []).1
read_at-IsServed_example =
    read_at-IsServed six_bytes false false (early ∷ late ∷ []) moment 4 1 []
      downloader-IsSound_example (omega arith, (downloader-IsSound_example.reported, _))

read_at-IsWhole_example :
    (read_at false false (late ∷ []) moment 4 3 []).1 ≡ returns (take 4 (drop 3 six_bytes)) none
read_at-IsWhole_example =
    read_at-IsWhole six_bytes late [] moment 4 3 [] downloader-IsSound_example store_done store_err
      store_open refl refl refl (omega arith)

abbrev short_store : TempStore
short_store = downloader (body_in ((20 ∷ []) ∷ (21 ∷ []) ∷ []) []) (new_temp_store 6 temp_path)

abbrev short_moment : Moment
short_moment = record moment { store = short_store }

read_at_short_body_example :
    let v = record late { downloaded = short_store.downloaded } in
    (short_store.err ≡ none)
    × (short_store.downloaded ≡ 6)
    × ((read_at false false (v ∷ []) short_moment 6 0 []).1 ≡ returns (20 ∷ 21 ∷ []) none)
read_at_short_body_example =
    read_at_short_body ((20 ∷ []) ∷ (21 ∷ []) ∷ []) [] 6 temp_path
      (record late { downloaded = short_store.downloaded }) short_moment [] (omega arith)
      (omega arith) refl refl refl refl

abbrev host : Host
host = record { creates = some temp_path; opens = true; now = 3; meanwhile = λ files. files }

new_temp_file_store_created :
    (new_temp_file_store roomy host 5 (pos 6) []).1 ≡ created (new_temp_store 6 temp_path)
unfolding new_temp_file_store after_ensured make_store ensure_space_available check_space_available
    get_disk_usage usage_from
new_temp_file_store_created = refl

new_temp_file_store-IsRegistered_example :
    IsRegistered 5 (new_temp_store 6 temp_path) (new_temp_file_store roomy host 5 (pos 6) []).0
    × (new_temp_store 6 temp_path ≡ new_temp_store 6 (new_temp_store 6 temp_path).temp_path)
new_temp_file_store-IsRegistered_example =
    new_temp_file_store-IsRegistered roomy host 5 (pos 6) [] (new_temp_store 6 temp_path)
      (λ k files. refl) (λ now. refl) new_temp_file_store_created

-- A reader that is inside while Close begins.
abbrev inside_gate : Gate
inside_gate = record new_gate { readers = 1; readers_at = put 4 inside [] }

inside_gate_reached : Reaches new_gate inside_gate
unfolding step reader_checks reader_registers reader_rechecks get put
inside_gate_reached =
    moves (rechecks 4) refl (moves (registers 4) refl (moves (checks 4) refl here))

inside_gate_has : get 4 inside_gate.readers_at ≡ some inside
unfolding get put
inside_gate_has = refl

inside_file_open_example : inside_gate.file_open ≡ true
inside_file_open_example = inside_file_open inside_gate 4 inside_gate_reached inside_gate_has

abbrev timed_out_gate : Gate
timed_out_gate = record inside_gate { closed = true; closing = true; phase = timed_out }

timed_out_gate_reached : Reaches new_gate timed_out_gate
unfolding step close_calls close_sets_closing close_gives_up
timed_out_gate_reached =
    moves gives_up refl (moves sets_closing refl (moves calls_close refl inside_gate_reached))

timed_out_stays_open_example :
    (timed_out_gate.file_open ≡ true) × (timed_out_gate.phase ≡ timed_out)
timed_out_stays_open_example =
    timed_out_stays_open timed_out_gate timed_out_gate timed_out_gate_reached refl here
