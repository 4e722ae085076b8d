-- ===== src/Tests/TempFiles.antt =====
-- internal/fetcher/tempfile_manager.go: ten temp files on a disk with room.
use fuse_stream_mvp.Base.{ℕ, ◌≡◌, refl, some, [], ◌∷◌, arith}
use fuse_stream_mvp.Base.Maps.{Text, get, IsMap, text_eq, delete}
use fuse_stream_mvp.Fetcher.TempFiles.{
  Info, Files, Env, check_space_available, entries_of, sort_entries, insert_entry, ok,
  get_disk_usage, usage_from, evict_loop, finish, final_check, judge, ensure_space_available,
}
use fuse_stream_mvp.Fetcher.TempFiles.Eviction.{IsEviction}
use fuse_stream_mvp.Fetcher.TempFiles.Space.{ensure_space_available-IsEviction}

abbrev file : ℕ → ℕ → Text × Info
file name at = (name ∷ [], record { size = 100; last_access = at; on_evict = some name })

abbrev ten_files : Files
ten_files =
    file 1 51
    ∷ file 2 52
    ∷ file 3 41
    ∷ file 4 54
    ∷ file 5 55
    ∷ file 6 56
    ∷ file 7 57
    ∷ file 8 58
    ∷ file 9 59
    ∷ file 10 60
    ∷ []

-- A disk of 10000 blocks of 10 bytes.
abbrev pub roomy : Env
roomy = record {
  statfs = λ k. some (record { blocks = 10000; bavail = 10000; bsize = 10 });
  percent_70 = λ total. 70000;
  meanwhile = λ k files. files;
}

ten_files-IsMap : IsMap ten_files
unfolding get
ten_files-IsMap = ground arith

ensure_space_available-IsEviction_example :
    IsEviction ten_files [] (ensure_space_available roomy 500 ten_files)
ensure_space_available-IsEviction_example =
    ensure_space_available-IsEviction roomy 500 ten_files (λ k files. refl) ten_files-IsMap

roomy_ok : (ensure_space_available roomy 500 ten_files).result ≡ ok
unfolding ensure_space_available check_space_available get_disk_usage usage_from entries_of
    sort_entries insert_entry evict_loop finish final_check judge get delete
roomy_ok = refl
