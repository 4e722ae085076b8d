-- ===== src/Fs/Sleep/Awake.antt =====
-- internal/fs/fs_fuse.go: sleep is prevented while a handle is open, and may stay so afterwards.
use fuse_stream_mvp.Base.{
  ℕ, zero, suc, ◌≡◌, refl, inl, inr, ◌∙◌, ap, ap₂, Bool, true, false, ◌||◌, some, List, [], ◌∷◌,
  ◌++◌, arith, ◌==◌, ltb, length, Bool-cases, Option-cases,
}
use fuse_stream_mvp.Base.Maps.{Map, Text, get, put, delete, nat_eq, text_eq}
use fuse_stream_mvp.Fs.{
  Fs, Staged, Handle, Task, enable_sleep_prevention, disable_sleep_prevention, clear_tile_ref,
  evict_each, evict_all_staged_files, evict_staged_file, open_file, register_handle, drop_open_ref,
  release, is_evicted, spawn, find_file, dec_ref,
}
use fuse_stream_mvp.Base.Words.{dec32}
use fuse_stream_mvp.Fs.Stage.{stage_file}
use fuse_stream_mvp.Fs.Paths.{trim_slash}
use fuse_stream_mvp.Fs.Safety.{
  Call, calls_stage_file, calls_open, calls_release, calls_evict_staged_file,
  calls_evict_all_staged_files, step, new_fs,
}
use fuse_stream_mvp.Fs.Sleep.{
  enable, disable, pick, run_pending, is_enable, enable_pending, IsAwake, Event, calls, runs_task,
  run_events,
}
use fuse_stream_mvp.Fs.Sleep.Same.{
  IsSame, try_evict_locked-IsSame, clear_tile_ref-IsSame, evict_each-IsSame, stage_file-IsSame,
}

same-IsAwake : (fs fs' : Fs) → IsSame fs fs' → IsAwake fs → IsAwake fs'
same-IsAwake fs fs' (handles, tasks, prevented) v used =
    ap₂ ◌||◌ prevented (ap enable_pending tasks) ∙ v (λ none_at. used (handles ∙ none_at))

enable_pending-append :
    (ts us : List Task) → enable_pending (ts ++ us) ≡ (enable_pending ts || enable_pending us)
enable_pending-append [] us = refl
enable_pending-append (t ∷ ts) us = ground (arith, enable_pending-append ts us)

put-length_of_empty :
    (k : ℕ) (h : Handle) (m : Map ℕ Handle) → m ≡ [] → (length (put k h m) == 1) ≡ true
unfolding put
put-length_of_empty k h m e = rw e refl

delete-empty : (k : ℕ) (m : Map ℕ Handle) → m ≡ [] → delete k m ≡ []
unfolding delete
delete-empty k m e = rw e refl

register_handle-IsAwake :
    (path id : Text) (s : Staged) (st : ℕ) (fs : Fs)
    → IsAwake fs
    → IsAwake (register_handle path id s st fs).0
unfolding register_handle
register_handle-IsAwake path id s st fs v used =
    let h : Handle = record { store = st; path = trim_slash path; staged = s.file.id } in
    elim (Bool-cases (length (put fs.next_fh h fs.handles) == 1)) [
      | inl only ↦
          rw (only, enable_pending-append fs.tasks (enable_sleep_prevention ∷ [])) (ground arith)
      | inr more ↦
          rw more (
            v (λ empty. absurd (ground (arith, put-length_of_empty fs.next_fh h fs.handles empty))))
    ]

open_file-IsAwake : (path : Text) (fs : Fs) → IsAwake fs → IsAwake (open_file path fs).0
unfolding open_file
open_file-IsAwake path fs v = elim (Option-cases (find_file path fs)) [
  | inl none_at ↦ rw (none_at, open_file) v
  | inr ((id, s), e) ↦ elim (Option-cases s.store) [
    | inl unready ↦ rw (e, unready, open_file) v
    | inr (st, f) ↦ elim (Bool-cases (is_evicted st fs.stores)) [
      | inl gone ↦ rw (e, f, gone, open_file) v
      | inr here ↦ rw (e, f, here, open_file) (register_handle-IsAwake path id s st fs v)
    ]
  ]
]

drop_open_ref-IsSame : (id : Text) (fs : Fs) → IsSame fs (drop_open_ref id fs)
unfolding drop_open_ref
drop_open_ref-IsSame id fs = elim (Option-cases (get id fs.staged_files)) [
  | inl gone ↦ ground (arith, gone)
  | inr (s, e) ↦
      let counted = record s { open_ref = dec32 s.open_ref } in
      ground (
        arith,
        e,
        try_evict_locked-IsSame id (record fs { staged_files = put id counted fs.staged_files }),
      )
]

released-IsAwake :
    (fh : ℕ) (h : Handle) (fs : Fs)
    → IsAwake fs
    → IsAwake (record fs { handles = delete fh fs.handles; stores = dec_ref h.store fs.stores })
released-IsAwake fh h fs v used = v (λ none_at. used (delete-empty fh fs.handles none_at))

spawn-IsAwake : (t : Task) (fs : Fs) → IsAwake fs → IsAwake (spawn t fs)
spawn-IsAwake t fs v used = ground (arith, v used, enable_pending-append fs.tasks (t ∷ []))

release-IsAwake : (fh : ℕ) (fs : Fs) → IsAwake fs → IsAwake (release fh fs).0
unfolding release
release-IsAwake fh fs v = elim (Option-cases (get fh fs.handles)) [
  | inl bad ↦ rw (bad, release) v
  | inr (h, e) ↦
      let freed = record fs {
        handles = delete fh fs.handles;
        stores = dec_ref h.store fs.stores;
      } in
      rw (e, release)
        (spawn-IsAwake disable_sleep_prevention (drop_open_ref h.staged freed) (
          same-IsAwake freed (drop_open_ref h.staged freed) (drop_open_ref-IsSame h.staged freed)
            (released-IsAwake fh h fs v)))
]

step-IsAwake : (c : Call) (fs : Fs) → IsAwake fs → IsAwake (step c fs)
unfolding evict_all_staged_files evict_staged_file
step-IsAwake (calls_stage_file r env) fs v =
    same-IsAwake fs ((stage_file r env fs).0) (stage_file-IsSame r env fs) v
step-IsAwake (calls_open path) fs v = open_file-IsAwake path fs v
step-IsAwake (calls_release fh) fs v = release-IsAwake fh fs v
step-IsAwake (calls_evict_staged_file id) fs v =
    same-IsAwake fs (step (calls_evict_staged_file id) fs)
      (ground
        (arith, clear_tile_ref-IsSame id fs, try_evict_locked-IsSame id (clear_tile_ref id fs)))
      v
step-IsAwake calls_evict_all_staged_files fs v =
    same-IsAwake fs (evict_each fs.staged_files fs) (evict_each-IsSame fs.staged_files fs) v

pick-pending :
    (k : ℕ) (ts us : List Task) (t : Task)
    → pick k ts ≡ some (t, us)
    → enable_pending ts ≡ (is_enable t || enable_pending us)
pick-pending k [] us t e = absurd (ground arith)
pick-pending zero (u ∷ ts) us t e = ground arith
pick-pending (suc k) (u ∷ ts) us t e = elim (Option-cases (pick k ts)) [
  | inl none_at ↦ absurd (ground (arith, none_at))
  | inr ((w, ws), f) ↦ ground (arith, f, pick-pending k ts ws w f)
]

empty_of_length : (m : Map ℕ Handle) → ltb 0 (length m) ≡ false → m ≡ []
empty_of_length [] e = refl
empty_of_length ((k, h) ∷ m) e = absurd (ground arith)

run_pending-IsAwake : (k : ℕ) (fs : Fs) → IsAwake fs → IsAwake (run_pending true k fs)
unfolding run_pending enable disable
run_pending-IsAwake k fs v = elim (Option-cases (pick k fs.tasks)) [
  | inl none_at ↦ rw (none_at, run_pending) v
  | inr ((enable_sleep_prevention, ts), e) ↦ rw (e, run_pending) (λ used. ground arith)
  | inr ((disable_sleep_prevention, ts), e) ↦
      rw (e, run_pending)
        (λ used. ground (
          arith,
          v,
          pick-pending k fs.tasks ts disable_sleep_prevention e,
          empty_of_length fs.handles,
        ))
]

run_events-keeps : (es : List Event) (fs : Fs) → IsAwake fs → IsAwake (run_events es fs)
unfolding run_events
run_events-keeps [] fs v = v
run_events-keeps (calls c ∷ es) fs v = run_events-keeps es (step c fs) (step-IsAwake c fs v)
run_events-keeps (runs_task k ∷ es) fs v =
    run_events-keeps es (run_pending true k fs) (run_pending-IsAwake k fs v)

-- Provided that sleep.PreventSleep always succeeds: after any calls on a new file system, with the
-- goroutines of Open and Release run at any time and in any order, an open handle means that sleep is
-- prevented or that a goroutine that will prevent it is pending.
pub run_events-IsAwake :
    (mode skip : Bool) (es : List Event) → IsAwake (run_events es (new_fs mode skip))
unfolding new_fs
run_events-IsAwake mode skip es =
    run_events-keeps es (new_fs mode skip) (λ used. absurd (used refl))

-- When the only handle was opened and released before either goroutine ran, and the one of Release
-- runs first, sleep stays prevented with no handle open and no goroutine pending.
pub sleep_stays_prevented :
    (fs : Fs)
    → fs.handles ≡ []
    → fs.sleep_prevented ≡ false
    → fs.tasks ≡ enable_sleep_prevention ∷ disable_sleep_prevention ∷ []
    → let fs' = run_pending true 0 (run_pending true 1 fs) in
      (fs'.handles ≡ []) × (fs'.tasks ≡ []) × (fs'.sleep_prevented ≡ true)
unfolding run_pending enable disable
sleep_stays_prevented fs closed off pending =
    let left : run_pending true 1 fs ≡ record fs { tasks = enable_sleep_prevention ∷ [] } =
      rw (pending, run_pending) (rw off refl) in
    rw left (rw off (closed, refl, refl))
