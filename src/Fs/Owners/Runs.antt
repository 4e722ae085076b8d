-- ===== src/Fs/Owners/Runs.antt =====
-- internal/fs/fs_fuse.go: no backing store is left open without a staged file.
use fuse_stream_mvp.Base.{ℕ, ◌≡◌, Bool, false, none, some, List, [], ◌∷◌, arith}
use fuse_stream_mvp.Base.Maps.{get, nat_eq, text_eq}
use fuse_stream_mvp.Fs.{Fs}
use fuse_stream_mvp.Fs.Safety.{
  Call, calls_stage_file, calls_open, calls_release, calls_evict_staged_file,
  calls_evict_all_staged_files, step, run, new_fs, after,
}
use fuse_stream_mvp.Fs.Owners.{Owned, store_of, is_open}
use fuse_stream_mvp.Fs.Owners.Calls.{
  evict_all_staged_files-Owned, evict_staged_file-Owned, open_file-Owned, release-Owned,
}
use fuse_stream_mvp.Fs.Owners.Staging.{stage_file-Owned}

-- NewBackingStore makes an object that is not in use.
abbrev pub IsNew : Call → Fs → Type 0
IsNew (calls_stage_file r env) fs = (st : ℕ) → env.store ≡ some st → is_open st fs.stores ≡ false
IsNew _ fs = Unit {0}

abbrev pub AllNew : List Call → Fs → Type 0
AllNew [] fs = Unit {0}
AllNew (c ∷ cs) fs = IsNew c fs × AllNew cs (step c fs)

step-Owned : (c : Call) (fs : Fs) → IsNew c fs → Owned none fs → Owned none (step c fs)
step-Owned (calls_stage_file r env) fs new v =
    stage_file-Owned r env fs (record { held = v.held; sole = v.sole; owner = v.owner; free = new })
step-Owned (calls_open path) fs new v = open_file-Owned none path fs v
step-Owned (calls_release fh) fs new v = release-Owned none fh fs v
step-Owned (calls_evict_staged_file id) fs new v = evict_staged_file-Owned none id fs v
step-Owned calls_evict_all_staged_files fs new v = evict_all_staged_files-Owned none fs v

run-Owned :
    (calls : List Call) (fs : Fs) → AllNew calls fs → Owned none fs → Owned none (run calls fs)
unfolding run
run-Owned [] fs new v = v
run-Owned (c ∷ cs) fs new v = run-Owned cs (step c fs) new.1 (step-Owned c fs new.0 v)

new_fs-Owned : (mode skip : Bool) → Owned none (new_fs mode skip)
unfolding new_fs store_of is_open get
new_fs-Owned mode skip = record {
  held = λ id st e. ground arith;
  sole = λ i j st e h. ground arith;
  owner = λ st e. absurd (ground arith);
  free = λ st e. ground arith;
}

-- After any calls of StageFile, Open, Release and the two evictions on a new file system, provided
-- that each backing store that is made is not in use: the store of a staged file is open and no
-- other file has it, and every open store is that of a staged file.
pub stores_have_owners :
    (mode skip : Bool) (calls : List Call)
    → AllNew calls (new_fs mode skip)
    → Owned none (after mode skip calls)
stores_have_owners mode skip calls new =
    run-Owned calls (new_fs mode skip) new (new_fs-Owned mode skip)
