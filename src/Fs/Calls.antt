-- ===== src/Fs/Calls.antt =====
-- internal/fs/fs_fuse.go: the calls of the file system keep the counts of open handles right.
use fuse_stream_mvp.Base.{
  ℕ, suc, ◌+◌, ◌≤◌, ◌<◌, ◌≡◌, inl, inr, ◌∙◌, ap, Bool, true, false, none, some, List, [], ◌∷◌, ◌++◌,
  arith, if◌then◌else◌, length, Bool-cases, Option-cases,
}
use fuse_stream_mvp.Base.Maps.{
  Map, Text, text_beq, text_beq_iff, text_beq_refl, get, put, delete, nat_eq, text_eq, get-put,
  get-delete, put-IsMap, delete-IsMap,
}
use fuse_stream_mvp.Base.Words.{inc32, dec32}
use fuse_stream_mvp.Fs.{
  Fs, Staged, Handle, Task, disable_sleep_prevention, open_, is_evicted, find_file, register_handle,
  open_file, drop_open_ref, release, dec_ref,
}
use fuse_stream_mvp.Fs.Paths.{trim_slash}
use fuse_stream_mvp.Fs.Handles.{count, one_if, count-put, count-delete, count-le-length}
use fuse_stream_mvp.Fs.Invariant.{Inv, int32_limit, try_evict_locked-Inv}

-- The next handle is in no use.
fresh-handle : (n : ℕ) (fs : Fs) → Inv n fs → get fs.next_fh fs.handles ≡ none
fresh-handle n fs v = elim (Option-cases (get fs.next_fh fs.handles)) [
  | inl new ↦ new
  | inr (h, used) ↦ absurd (omega (arith, v.fresh fs.next_fh h used))
]

length-put : {A : Type 0} (k : ℕ) (a : A) (m : Map ℕ A) → length (put k a m) ≤ length m + 1
unfolding put
length-put k a [] = omega arith
length-put k a ((j, b) ∷ m) = ground (arith, length-put k a m)

register_handle-Inv :
    (n : ℕ) (path id : Text) (s : Staged) (st : ℕ) (fs : Fs)
    → suc n < int32_limit
    → get id fs.staged_files ≡ some s
    → Inv n fs
    → Inv (suc n) (register_handle path id s st fs).0
unfolding register_handle
register_handle-Inv n path id s st fs small e v =
    let (same, named) = v.counted id s e in
    let new = fresh-handle n fs v in
    let h : Handle = record { store = st; path = trim_slash path; staged = s.file.id } in
    let s' : Staged = record s {
      open_ref = inc32 s.open_ref;
      file = record s.file { status = open_ };
    } in
    let total = λ (j : Text).
      count-put j fs.next_fh h fs.handles new
      ∙ ap (λ i. count j fs.handles + one_if (text_beq i j)) named in
    record {
      counted = λ j t f.
          ground
            (arith, get-put j id s' fs.staged_files, text_beq_iff id j, total j, v.counted j t);
      known = λ j f. ground (arith, get-put j id s' fs.staged_files, total j, v.known j);
      distinct = put-IsMap id s' fs.staged_files v.distinct;
      unique = put-IsMap fs.next_fh h fs.handles v.unique;
      fresh = λ fh g f. ground (arith, get-put fh fs.next_fh h fs.handles, v.fresh fh g, v.next);
      few = omega (arith, length-put fs.next_fh h fs.handles, v.few);
      next = omega (arith, v.next);
    }

-- A file found by its path is staged.
pub find_file-get :
    (path : Text) (fs : Fs) (id : Text) (s : Staged)
    → find_file path fs ≡ some (id, s)
    → get id fs.staged_files ≡ some s
unfolding find_file
find_file-get path fs id s e = ground arith

-- A further call may have been an Open that failed.
pub later-Inv : (n : ℕ) (fs : Fs) → Inv n fs → Inv (suc n) fs
later-Inv n fs v = record {
  counted = v.counted;
  known = v.known;
  distinct = v.distinct;
  unique = v.unique;
  fresh = v.fresh;
  few = omega (arith, v.few);
  next = omega (arith, v.next);
}

pub open_file-Inv :
    (n : ℕ) (path : Text) (fs : Fs)
    → suc n < int32_limit
    → Inv n fs
    → Inv (suc n) (open_file path fs).0
unfolding open_file
open_file-Inv n path fs small v = elim (Option-cases (find_file path fs)) [
  | inl none_at ↦ rw (none_at, open_file) (later-Inv n fs v)
  | inr ((id, s), e) ↦ elim (Option-cases s.store) [
    | inl unready ↦ rw (e, unready, open_file) (later-Inv n fs v)
    | inr (st, e') ↦ elim (Bool-cases (is_evicted st fs.stores)) [
      | inl gone ↦ rw (e, e', gone, open_file) (later-Inv n fs v)
      | inr here ↦
          rw (e, e', here, open_file)
            (register_handle-Inv n path id s st fs small (find_file-get path fs id s e) v)
    ]
  ]
]

length-delete-le : {A : Type 0} (k : ℕ) (m : Map ℕ A) → length (delete k m) ≤ length m
unfolding delete
length-delete-le k [] = omega arith
length-delete-le k ((j, b) ∷ m) = ground (arith, length-delete-le k m)

-- The maps after Release has counted the handle `fh` out of its file.
abbrev released : ℕ → Handle → Staged → Fs → Fs
released fh h s fs = record fs {
  handles = delete fh fs.handles;
  stores = dec_ref h.store fs.stores;
  staged_files = put h.staged (record s { open_ref = dec32 s.open_ref }) fs.staged_files;
}

released-Inv :
    (n fh : ℕ) (h : Handle) (s : Staged) (fs : Fs)
    → n < int32_limit
    → get fh fs.handles ≡ some h
    → get h.staged fs.staged_files ≡ some s
    → Inv n fs
    → Inv n (released fh h s fs)
released-Inv n fh h s fs small e f v =
    let s' : Staged = record s { open_ref = dec32 s.open_ref } in
    let total = λ (j : Text). count-delete j fh h fs.handles v.unique e in
    record {
      counted = λ j t g. ground (
        arith,
        get-put j h.staged s' fs.staged_files,
        text_beq_iff h.staged j,
        total j,
        v.counted j t,
        v.counted h.staged s f,
        v.few,
        count-le-length j fs.handles,
      );
      known = λ j g. ground (arith, get-put j h.staged s' fs.staged_files, total j, v.known j);
      distinct = put-IsMap h.staged s' fs.staged_files v.distinct;
      unique = delete-IsMap fh fs.handles v.unique;
      fresh = λ k g q. ground (arith, get-delete k fh fs.handles, v.fresh k g);
      few = omega (arith, length-delete-le fh fs.handles, v.few);
      next = v.next;
    }

tasks-Inv : (n : ℕ) (fs : Fs) (tasks : List Task) → Inv n fs → Inv n (record fs { tasks = tasks })
tasks-Inv n fs tasks v = record {
  counted = v.counted;
  known = v.known;
  distinct = v.distinct;
  unique = v.unique;
  fresh = v.fresh;
  few = v.few;
  next = v.next;
}

-- The file of a handle is staged.
pub handle-staged :
    (n fh : ℕ) (h : Handle) (fs : Fs)
    → Inv n fs
    → get fh fs.handles ≡ some h
    → (s : Staged) × (get h.staged fs.staged_files ≡ some s)
handle-staged n fh h fs v e = elim (Option-cases (get h.staged fs.staged_files)) [
  | inr found ↦ found
  | inl gone ↦ absurd (
      ground (
        arith,
        v.known h.staged gone,
        count-delete h.staged fh h fs.handles v.unique e,
        text_beq_refl h.staged,
      ))
]

-- The maps after Release has freed the handle `fh`, its file not counted down yet.
abbrev freed : ℕ → Handle → Fs → Fs
freed fh h fs = record fs { handles = delete fh fs.handles; stores = dec_ref h.store fs.stores }

either-Inv : (n : ℕ) (b : Bool) (fs fs' : Fs) → Inv n fs → Inv n fs' → Inv n (if b then fs else fs')
either-Inv n true fs fs' v w = v
either-Inv n false fs fs' v w = w

freed-Inv :
    (n fh : ℕ) (h : Handle) (s : Staged) (fs : Fs)
    → n < int32_limit
    → get fh fs.handles ≡ some h
    → get h.staged fs.staged_files ≡ some s
    → Inv n fs
    → Inv n (drop_open_ref h.staged (freed fh h fs))
unfolding drop_open_ref
freed-Inv n fh h s fs small e f v =
    let w = released-Inv n fh h s fs small e f v in
    let kept = try_evict_locked-Inv n h.staged (released fh h s fs) small w in
    rw (f, drop_open_ref) (either-Inv n _ _ _ (either-Inv n _ _ _ w kept) w)

pub release-Inv : (n fh : ℕ) (fs : Fs) → n < int32_limit → Inv n fs → Inv n (release fh fs).0
unfolding release
release-Inv n fh fs small v = elim (Option-cases (get fh fs.handles)) [
  | inl bad ↦ rw (bad, release) v
  | inr (h, e) ↦
      let (s, f) = handle-staged n fh h fs v e in
      let dropped = drop_open_ref h.staged (freed fh h fs) in
      rw (e, release)
        (tasks-Inv n dropped (dropped.tasks ++ disable_sleep_prevention ∷ [])
          (freed-Inv n fh h s fs small e f v))
]
