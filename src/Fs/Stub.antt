-- ===== src/Fs/Stub.antt =====
-- internal/fs/fs_stub.go: the file system of a build without FUSE, which only keeps the staged files.
use fuse_stream_mvp.Base.{
  ℕ, suc, ◌≡◌, refl, Bool, false, none, some, List, [], ◌∷◌, arith, if◌then◌else◌,
}
use fuse_stream_mvp.Base.Maps.{
  Map, Text, text_beq, text_beq_iff, text_beq_refl, text_eq, get, put, delete, get-put, get-delete,
  IsMap, put-IsMap, delete-IsMap,
}
use fuse_stream_mvp.Fs.Paths.{staged_id}
use fuse_stream_mvp.Fs.Stage.{Request}

-- A staged file; its Status is "unavailable".
pub record StubFile : Type 0 where
  pub id : Text
  pub request : Request
  pub mod_time : ℕ

abbrev pub StubFs : Type 0
StubFs = Map Text StubFile

abbrev pub new_stub : StubFs
new_stub = []

unfoldable pub stage_stub : Request → ℕ → StubFs → StubFs × StubFile
stage_stub r now fs =
    let id = staged_id r.file_id r.recipient_tag in
    let file : StubFile = record { id = id; request = r; mod_time = now } in (put id file fs, file)

unfoldable pub get_staged_files : StubFs → List StubFile
get_staged_files [] = []
get_staged_files ((id, file) ∷ fs) = file ∷ get_staged_files fs

unfoldable pub evict_stub : Text → StubFs → StubFs
evict_stub id fs = delete id fs

unfoldable pub evict_all_stubs : StubFs → StubFs
evict_all_stubs fs = []

abbrev pub has_active_stub_uploads : StubFs → Bool
has_active_stub_uploads fs = false

-- The states that calls lead to.
pub data Runs : StubFs → Type 0 where
  begins : Runs new_stub
  stages : {fs : StubFs} (r : Request) (now : ℕ) → Runs fs → Runs (stage_stub r now fs).0
  evicts : {fs : StubFs} (id : Text) → Runs fs → Runs (evict_stub id fs)
  evicts_all : {fs : StubFs} → Runs fs → Runs (evict_all_stubs fs)

-- How often an ID is listed.
unfoldable pub listed : Text → List StubFile → ℕ
listed id [] = 0
listed id (file ∷ files) = let n = listed id files in if text_beq file.id id then suc n else n

IsNamed : StubFs → Type 0
IsNamed fs = IsMap fs × ((id : Text) (f : StubFile) → get id fs ≡ some f → f.id ≡ id)

Runs-IsNamed : (fs : StubFs) → Runs fs → IsNamed fs
unfolding IsNamed stage_stub evict_stub evict_all_stubs get
Runs-IsNamed fs begins = (tt, λ id f e. absurd (ground arith))
Runs-IsNamed fs (stages {fs = fs'} r now v) =
    let (map, named) = Runs-IsNamed fs' v in
    let id = staged_id r.file_id r.recipient_tag in
    let file : StubFile = record { id = id; request = r; mod_time = now } in
    (
      put-IsMap id file fs' map,
      λ j f e. ground (arith, get-put j id file fs', text_beq_iff id j, named j f),
    )
Runs-IsNamed fs (evicts {fs = fs'} id v) =
    let (map, named) = Runs-IsNamed fs' v in
    (delete-IsMap id fs' map, λ j f e. ground (arith, get-delete j id fs', named j f))
Runs-IsNamed fs (evicts_all v) = (tt, λ id f e. absurd (ground arith))

listed-get :
    (id : Text) (fs : StubFs)
    → IsMap fs
    → ((j : Text) (f : StubFile) → get j fs ≡ some f → f.id ≡ j)
    → listed id (get_staged_files fs) ≡ (elim (get id fs) [ none ↦ 0 | some f ↦ 1 ])
unfolding listed get_staged_files get
listed-get id [] map named = refl
listed-get id ((j, f) ∷ fs) map named =
    let own : f.id ≡ j = named j f (rw (text_beq_refl j) refl) in
    let rest = listed-get id fs map.1 (λ k g e. ground (arith, text_beq_iff j k, named k g)) in
    ground (arith, text_beq_iff j id, rest)

-- After any calls, GetStagedFiles lists exactly one file for each ID in the map of staged files, and
-- none for any other.
pub get_staged_files_once :
    (fs : StubFs) (id : Text)
    → Runs fs
    → listed id (get_staged_files fs) ≡ (elim (get id fs) [ none ↦ 0 | some f ↦ 1 ])
unfolding IsNamed
get_staged_files_once fs id v = let (map, named) = Runs-IsNamed fs v in listed-get id fs map named
