-- ===== src/Fetcher/TempStore/New.antt =====
-- internal/fetcher/store_tempfile.go: NewTempFileStore and the end of CloseWithContext, with the
-- manager's files.
--
-- `Host` is what the operating system answers: the path of the temp file that it makes, whether it opens
-- it for reading, the time, and what other goroutines do to the files before the store registers. `id`
-- names the store in the manager's callback.
use fuse_stream_mvp.Base.{
  ℕ, suc, ◌≤◌, ◌<◌, ◌≡◌, refl, sym, ◌∙◌, inl, inr, Bool, true, false, Option, none, some, [], ◌∷◌,
  arith, length, if◌then◌else◌, Option-cases, either, subst,
}
use fuse_stream_mvp.Base.Maps.{Text, get, put, text_eq, text_beq_refl, get-put}
use fuse_stream_mvp.Base.Words.{ℤ, is_nonpos, to_ℕ}
use fuse_stream_mvp.Fetcher.TempFiles.{
  Info, Files, Env, Error, Ensured, ok, fails, panics, Outcome, register, unregister,
  max_temp_files, ensure_space_available,
}
use fuse_stream_mvp.Fetcher.TempFiles.Eviction.{IsAlone}
use fuse_stream_mvp.Fetcher.TempFiles.Space.{ensure_space_available-HasRoom}
use fuse_stream_mvp.Fetcher.TempStore.{TempStore, new_temp_store}

pub record Host : Type 0 where
  pub creates : Option Text
  pub opens : Bool
  pub now : ℕ
  pub meanwhile : Files → Files

pub data NewError : Type 0 where
  invalid_file_size create_failed open_failed : NewError
  no_space : Error → NewError

pub data Created : Type 0 where
  created : TempStore → Created
  not_created : NewError → Created
  panicked : Created

-- What follows the check of the space.
unfoldable pub make_store : Host → ℕ → ℕ → Files → Files × Created
make_store host id size files =
    let now = host.meanwhile files in
    elim host.creates [
      | none ↦ (now, not_created create_failed)
      | some path ↦
          if host.opens
          then (register path size host.now (some id) now, created (new_temp_store size path))
          else (now, not_created open_failed)
    ]

unfoldable pub after_ensured : Host → ℕ → ℕ → Outcome → Files × Created
after_ensured host id size o = elim o.result [
  | ok ↦ make_store host id size o.files
  | fails e ↦ (o.files, not_created (no_space e))
  | panics ↦ (o.files, panicked)
]

unfoldable pub new_temp_file_store : Env → Host → ℕ → ℤ → Files → Files × Created
new_temp_file_store env host id size files =
    if is_nonpos size
    then (files, not_created invalid_file_size)
    else after_ensured host id (to_ℕ size) (ensure_space_available env (to_ℕ size) files)

-- `os.Remove`: the path goes, was not there, or the call fails.
pub data Removal : Type 0 where
  removed not_there remove_failed : Removal

-- Steps 6 and 7 of CloseWithContext: false where the removal's error is returned.
unfoldable pub end_close : Removal → TempStore → Files → Files × Bool
end_close removed s files = (unregister s.temp_path files, true)
end_close not_there s files = (unregister s.temp_path files, true)
end_close remove_failed s files = (unregister s.temp_path files, false)

length-put-le :
    (path : Text) (info : Info) (files : Files) → length (put path info files) ≤ suc (length files)
unfolding put
length-put-le path info [] = omega arith
length-put-le path info ((q, i) ∷ files) = ground (arith, length-put-le path info files)

-- What a store that is made leaves with the manager.
pub record IsRegistered (id : ℕ) (s : TempStore) (files : Files) : Type 0 where
  pub few : length files ≤ max_temp_files
  pub known :
      (info : Info) × (get s.temp_path files ≡ some info)
      × (info.size ≡ s.size)
      × (info.on_evict ≡ some id)

abbrev IsMade : ℕ → ℕ → Files → Created → Type 0
IsMade id size files (created s) = IsRegistered id s files × (s ≡ new_temp_store size s.temp_path)
IsMade id size files (not_created e) = Unit {0}
IsMade id size files panicked = Unit {0}

make_store-IsMade :
    (host : Host) (id size : ℕ) (files : Files)
    → length (host.meanwhile files) < max_temp_files
    → IsMade id size (make_store host id size files).0 (make_store host id size files).1
unfolding make_store register new_temp_store
make_store-IsMade host id size files few = elim (Option-cases host.creates) [
  | inl failed ↦ rw (failed, make_store) _
  | inr (path, e) ↦
      let now = host.meanwhile files in
      let info : Info = record { size = size; last_access = host.now; on_evict = some id } in
      let known : get path (put path info now) ≡ some info =
        get-put path path info now ∙ rw (text_beq_refl path) refl in
      rw (e, make_store)
        (either (λ (r : Files × Created). IsMade id size r.0 r.1) host.opens
          (
            record {
              few = ground (arith, length-put-le path info now);
              known = (info, known, refl, refl);
            },
            refl,
          )
          _)
]

after_ensured-IsMade :
    (host : Host) (id size : ℕ) (o : Outcome)
    → (o.result ≡ ok → length (host.meanwhile o.files) < max_temp_files)
    → IsMade id size (after_ensured host id size o).0 (after_ensured host id size o).1
unfolding after_ensured
after_ensured-IsMade host id size o room = go o.result refl
  where
    go :
        (r : Ensured)
        → o.result ≡ r
        → IsMade id size (after_ensured host id size o).0 (after_ensured host id size o).1
    go ok f = rw (f, after_ensured) (make_store-IsMade host id size o.files (room f))
    go (fails x) f = rw (f, after_ensured) _
    go panics f = rw (f, after_ensured) _

-- With no other goroutine at the manager's files from the call of EnsureSpaceAvailable to Register,
-- a store that NewTempFileStore makes is empty and of the size asked for, the manager knows its
-- temp file with this size and its callback, and no more than ten files are left to the manager.
pub new_temp_file_store-IsRegistered :
    (env : Env) (host : Host) (id : ℕ) (size : ℤ) (files : Files) (s : TempStore)
    → IsAlone env
    → ((now : Files) → host.meanwhile now ≡ now)
    → (new_temp_file_store env host id size files).1 ≡ created s
    → IsRegistered id s (new_temp_file_store env host id size files).0
      × (s ≡ new_temp_store (to_ℕ size) s.temp_path)
unfolding new_temp_file_store
new_temp_file_store-IsRegistered env host id size files s alone quiet e =
    let room : (ensure_space_available env (to_ℕ size) files).result ≡ ok
        → length (host.meanwhile (ensure_space_available env (to_ℕ size) files).files)
          < max_temp_files =
      λ r.
        let few = (ensure_space_available-HasRoom env (to_ℕ size) files alone r).0 in
        let same = quiet (ensure_space_available env (to_ℕ size) files).files in
        subst (λ now. length now < max_temp_files) (sym same) few in
    subst (IsMade id (to_ℕ size) (new_temp_file_store env host id size files).0) e (
      either (λ (r : Files × Created). IsMade id (to_ℕ size) r.0 r.1) (is_nonpos size) _
        (after_ensured-IsMade host id (to_ℕ size) (ensure_space_available env (to_ℕ size) files)
          room))
