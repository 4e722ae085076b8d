-- ===== src/Fs/Staging.antt =====
-- internal/fs/fs_fuse.go: what StageFile leaves behind.
use fuse_stream_mvp.Base.{
  ℕ, ◌≡◌, refl, ◌≢◌, inl, inr, ◌∙◌, sym, ap, false, ◌&&◌, not, none, some, [], arith, if◌then◌else◌,
  Bool-cases, Option-cases,
}
use fuse_stream_mvp.Base.Maps.{
  Map, Text, text_beq, text_beq_iff, text_beq_refl, get, put, nat_eq, text_eq, get-put,
}
use fuse_stream_mvp.Fs.{Fs, Staged, Store, evict_all_staged_files, is_evicted, ready}
use fuse_stream_mvp.Fs.Paths.{staged_id}
use fuse_stream_mvp.Fs.Stage.{
  Request, Env, Staging, staged, fails, new_file, refresh, install, create, stage_file,
  mark_evicted,
}
use fuse_stream_mvp.Fs.Tiles.{IsSwept, evict_all_staged_files-IsSwept}

-- What StageFile leaves of the file that it was asked for. On success it is staged as returned, with
-- a tile and a store that no eviction has taken. After an error it is staged only if it was open, and
-- then without a store.
abbrev pub IsAnswered : Text → Fs → Staging → Type 0
IsAnswered id fs (staged file) =
    (s : Staged) × (st : ℕ) × (get id fs.staged_files ≡ some s)
    × (s.file ≡ file)
    × (s.tile_ref ≡ 1)
    × (s.store ≡ some st)
    × (is_evicted st fs.stores ≡ false)
IsAnswered id fs (fails e) =
    (s : Staged) → get id fs.staged_files ≡ some s → (s.store ≡ none) × (s.open_ref ≢ 0)

-- The file is not staged, or open without a store, its tile back.
abbrev IsUnready : Text → Fs → Type 0
IsUnready id fs =
    (s : Staged)
    → get id fs.staged_files ≡ some s
    → (s.store ≡ none) × (s.open_ref ≢ 0) × (s.tile_ref ≡ 1)

get-put_self : (id : Text) (s : Staged) (m : Map Text Staged) → get id (put id s m) ≡ some s
get-put_self id s m = ground (arith, get-put id id s m, text_beq_refl id)

get-put_other :
    (j id : Text) (s : Staged) (m : Map Text Staged)
    → text_beq id j ≡ false
    → get j (put id s m) ≡ get j m
get-put_other j id s m ne = get-put j id s m ∙ rw ne

-- A store that was just made is not evicted.
is_evicted-put :
    (st : ℕ) (new : Store) (m : Map ℕ Store) → is_evicted st (put st new m) ≡ new.evicted
is_evicted-put st new m = ground (arith, get-put st st new m)

install-IsAnswered :
    (id : Text) (r : Request) (now st : ℕ) (fs : Fs)
    → IsUnready id fs
    → IsAnswered id (install id r now st fs).0 (install id r now st fs).1
unfolding install
install-IsAnswered id r now st fs u =
    let made : Store = record { ref_count = 0; closed = false; evicted = false } in
    let here = is_evicted-put st made fs.stores in
    elim (Option-cases (get id fs.staged_files)) [
      | inl gone ↦
          let s : Staged = record {
            file = new_file id r now;
            store = some st;
            tile_ref = 1;
            open_ref = 0;
          } in
          rw (gone, install) (s, st, get-put_self id s fs.staged_files, refl, refl, refl, here)
      | inr (s, e) ↦
          let s' : Staged = record s { store = some st; file = record s.file { status = ready } } in
          let (unready, used, tile) = u s e in
          rw (e, unready, install)
            (s', st, get-put_self id s' fs.staged_files, refl, tile, refl, here)
    ]

create-IsAnswered :
    (id : Text) (r : Request) (env : Env) (fs : Fs)
    → IsUnready id fs
    → IsAnswered id (create id r env fs).0 (create id r env fs).1
unfolding create
create-IsAnswered id r env fs u =
    let marks = if fs.temp_file_mode then env.space_marks else [] in
    let checked = record fs { stores = mark_evicted marks fs.stores } in
    let left : (s : Staged)
        → get id fs.staged_files ≡ some s
        → (s.store ≡ none) × (s.open_ref ≢ 0) =
      λ s e. ((u s e).0, (u s e).1) in
    elim (Bool-cases (fs.temp_file_mode && not env.space_ok)) [
      | inl full ↦ rw (full, create) left
      | inr room ↦ elim (Option-cases env.temp_url) [
        | inl failed ↦ rw (room, failed, create) left
        | inr (url, e) ↦ elim (Option-cases env.store) [
          | inl failed ↦ rw (room, e, failed, create) left
          | inr (st, f) ↦
              rw (room, e, f, create)
                (install-IsAnswered id r env.now st
                  (record checked { stores = mark_evicted env.store_marks checked.stores }) u)
        ]
      ]
    ]

refresh-IsAnswered :
    (id : Text) (r : Request) (now : ℕ) (s : Staged) (fs : Fs)
    → get id fs.staged_files ≡ some s
    → s.open_ref ≢ 0
    → ((s' : Staged)
        → (refresh id now s fs).1 ≡ some s'
        → IsAnswered id (refresh id now s fs).0 (staged s'.file))
      × ((refresh id now s fs).1 ≡ none → IsUnready id (refresh id now s fs).0)
unfolding refresh
refresh-IsAnswered id r now s fs e used =
    let touched : Staged = record s { tile_ref = 1; file = record s.file { mod_time = now } } in
    let lost : Staged = record touched { store = none } in
    let kept = get-put_self id touched fs.staged_files in
    let emptied = get-put_self id lost fs.staged_files in
    elim (Option-cases s.store) [
      | inl unready ↦ rw (unready, refresh) (λ s' f. absurd (ground arith), λ f t g. ground arith)
      | inr (st, f) ↦ elim (Bool-cases (is_evicted st fs.stores)) [
        | inl gone ↦ rw (f, gone, refresh) (λ s' g. absurd (ground arith), λ g t h. ground arith)
        | inr here ↦
            rw (f, here, refresh)
              (
                λ s' g.
                    let same : touched ≡ s' = ground arith in
                    (touched, st, kept, ap (λ x. x.file) same, refl, f, here),
                λ g. absurd (ground arith),
              )
      ]
    ]

-- StageFile leaves the file that it was asked for as `IsAnswered` says.
pub stage_file-IsAnswered :
    (r : Request) (env : Env) (fs : Fs)
    → IsAnswered
        (staged_id r.file_id r.recipient_tag)
        (stage_file r env fs).0
        (stage_file r env fs).1
unfolding stage_file
stage_file-IsAnswered r env fs =
    let id = staged_id r.file_id r.recipient_tag in
    let cleared = evict_all_staged_files fs in
    let swept = evict_all_staged_files-IsSwept id fs in
    elim (Option-cases (get id cleared.staged_files)) [
      | inl new ↦
          rw (new, stage_file) (create-IsAnswered id r env cleared (λ s e. absurd (ground arith)))
      | inr (s, e) ↦
          let (fs', valid) = refresh id env.now s cleared in
          let (fresh, stale) = refresh-IsAnswered id r env.now s cleared e (swept s e).1 in
          elim (Option-cases valid) [
            | inl f ↦ rw (e, f, stage_file) (create-IsAnswered id r env fs' (stale f))
            | inr (s', f) ↦ rw (e, f, stage_file) (fresh s' f)
          ]
    ]

-- Another entry is left as it is.
install-other :
    (j id : Text) (r : Request) (now st : ℕ) (fs : Fs)
    → text_beq id j ≡ false
    → get j (install id r now st fs).0.staged_files ≡ get j fs.staged_files
unfolding install
install-other j id r now st fs ne = elim (Option-cases (get id fs.staged_files)) [
  | inl gone ↦
      let s : Staged = record {
        file = new_file id r now;
        store = some st;
        tile_ref = 1;
        open_ref = 0;
      } in
      rw (gone, install) (get-put_other j id s fs.staged_files ne)
  | inr (s, e) ↦ elim (Option-cases s.store) [
    | inr (old, f) ↦ rw (e, f, install) refl
    | inl unready ↦
        let s' : Staged = record s { store = some st; file = record s.file { status = ready } } in
        rw (e, unready, install) (get-put_other j id s' fs.staged_files ne)
  ]
]

create-other :
    (j id : Text) (r : Request) (env : Env) (fs : Fs)
    → text_beq id j ≡ false
    → get j (create id r env fs).0.staged_files ≡ get j fs.staged_files
unfolding create
create-other j id r env fs ne =
    let marks = if fs.temp_file_mode then env.space_marks else [] in
    let checked = record fs { stores = mark_evicted marks fs.stores } in
    elim (Bool-cases (fs.temp_file_mode && not env.space_ok)) [
      | inl full ↦ rw (full, create) refl
      | inr room ↦ elim (Option-cases env.temp_url) [
        | inl failed ↦ rw (room, failed, create) refl
        | inr (url, e) ↦ elim (Option-cases env.store) [
          | inl failed ↦ rw (room, e, failed, create) refl
          | inr (st, f) ↦
              rw (room, e, f, create)
                (install-other j id r env.now st
                  (record checked { stores = mark_evicted env.store_marks checked.stores }) ne)
        ]
      ]
    ]

refresh-other :
    (j id : Text) (now : ℕ) (s : Staged) (fs : Fs)
    → text_beq id j ≡ false
    → get j (refresh id now s fs).0.staged_files ≡ get j fs.staged_files
unfolding refresh
refresh-other j id now s fs ne =
    let touched : Staged = record s { tile_ref = 1; file = record s.file { mod_time = now } } in
    let kept = get-put_other j id touched fs.staged_files ne in
    let lost = get-put_other j id (record touched { store = none }) fs.staged_files ne in
    elim (Option-cases s.store) [
      | inl unready ↦ rw (unready, refresh) kept
      | inr (st, f) ↦ elim (Bool-cases (is_evicted st fs.stores)) [
        | inl gone ↦ rw (f, gone, refresh) lost
        | inr here ↦ rw (f, here, refresh) kept
      ]
    ]

stage_file-other :
    (j : Text) (r : Request) (env : Env) (fs : Fs)
    → text_beq (staged_id r.file_id r.recipient_tag) j ≡ false
    → get j (stage_file r env fs).0.staged_files ≡ get j (evict_all_staged_files fs).staged_files
unfolding stage_file
stage_file-other j r env fs ne =
    let id = staged_id r.file_id r.recipient_tag in
    let cleared = evict_all_staged_files fs in
    elim (Option-cases (get id cleared.staged_files)) [
      | inl new ↦ rw (new, stage_file) (create-other j id r env cleared ne)
      | inr (s, e) ↦
          let (fs', valid) = refresh id env.now s cleared in
          let same = refresh-other j id env.now s cleared ne in
          elim (Option-cases valid) [
            | inl f ↦ rw (e, f, stage_file) (create-other j id r env fs' ne ∙ same)
            | inr (s', f) ↦ rw (e, f, stage_file) same
          ]
    ]

-- After StageFile, whether it succeeds or fails, any file but the one asked for that is still staged
-- is open and has no tile.
pub stage_file-IsSwept :
    (j : Text) (r : Request) (env : Env) (fs : Fs)
    → j ≢ staged_id r.file_id r.recipient_tag
    → IsSwept j (stage_file r env fs).0
stage_file-IsSwept j r env fs ne s e = evict_all_staged_files-IsSwept j fs s (
    sym (
      stage_file-other j r env fs
        (ground (arith, text_beq_iff (staged_id r.file_id r.recipient_tag) j)))
    ∙ e)
