-- ===== src/Ui/Uploads/Listing.antt =====
-- ui/app_common.go: the files that the window lists are those that the file system has.
use mathlib.Core.List.{Memᴰ}
use fuse_stream_mvp.Base.{
  ℕ, ◌<◌, ◌≡◌, refl, sym, ap, ◌∙◌, subst, ◌⊎◌, inl, inr, Bool, true, false, Option, some, List, [],
  ◌∷◌, map, arith, length, contains, Bool-cases,
}
use fuse_stream_mvp.Base.Maps.{
  Map, Text, text_beq, text_beq_iff, text_beq_refl, get, text_eq, IsMap,
}
use fuse_stream_mvp.Fs
use fuse_stream_mvp.Fs.{Fs, Staged, StagedFile, files_of, find_file, opened, open_file}
use fuse_stream_mvp.Fs.Invariant.{Inv, int32_limit}
use fuse_stream_mvp.Fs.Opening.{place_of-path_of, is_plain-slash, join_plain, stage_file-open_file}
use fuse_stream_mvp.Fs.Paths.{slash, path_of, staged_id, is_plain}
use fuse_stream_mvp.Fs.Safety.{Call, after, after-Inv}
use fuse_stream_mvp.Fs.Stage.{Request, Env, Error, Staging, staged, fails, stage_file}
use fuse_stream_mvp.Fs.Staging.{IsAnswered, stage_file-IsAnswered}
use fuse_stream_mvp.Ui.Uploads.{
  StageResponse, StagedFileInfo, staged_file_info, get_staged_files, stage_for_upload, response_of,
}

same_info : (s t : Staged) → s ≡ t → staged_file_info s.file ≡ staged_file_info t.file
same_info s t e = ap (λ u. staged_file_info u.file) e

-- Every entry of a map is listed, and what is listed is an entry.
files_of-listed :
    (m : Map Text Staged) (id : Text) (s : Staged)
    → get id m ≡ some s
    → Memᴰ (staged_file_info s.file) (map staged_file_info (files_of m))
unfolding files_of get
files_of-listed [] id s e = absurd (ground arith)
files_of-listed ((j, t) ∷ m) id s e = elim (Bool-cases (text_beq j id)) [
  | inl same ↦ Memᴰ.head (same_info s t (ground arith))
  | inr apart ↦ Memᴰ.tail (files_of-listed m id s (ground arith))
]

files_of-entry :
    (m : Map Text Staged) (info : StagedFileInfo)
    → IsMap m
    → Memᴰ info (map staged_file_info (files_of m))
    → (id : Text) × (s : Staged) × (get id m ≡ some s) × (info ≡ staged_file_info s.file)
unfolding files_of get
files_of-entry [] info u listed = elim listed [ ]
files_of-entry ((j, t) ∷ m) info u (Memᴰ.head e) = (j, t, rw text_beq_refl refl, e)
files_of-entry ((j, t) ∷ m) info u (Memᴰ.tail h) =
    let (id, s, found, e) = files_of-entry m info u.1 h in
    (id, s, ground (arith, text_beq_iff j id), e)

-- The file system finds the file under the path that the entry has.
abbrev pub IsFound : StagedFileInfo → Fs → Type 0
IsFound info fs =
    (s : Staged) × (path : Text) × (info.file_path ≡ some path)
    × (find_file path fs ≡ some (info.id, s))
    × (info ≡ staged_file_info s.file)

find_file-found :
    (fs : Fs) (id name : Text) (s : Staged)
    → contains slash id ≡ false
    → contains slash name ≡ false
    → get id fs.staged_files ≡ some s
    → s.file.file_name ≡ name
    → find_file (path_of id name) fs ≡ some (id, s)
unfolding find_file
find_file-found fs id name s plain plain' e named =
    rw
      (
        find_file,
        place_of-path_of id name plain plain',
        e,
        (text_beq_iff s.file.file_name name).1 named,
      )
      refl

staged_file_info-IsFound :
    (fs : Fs) (id : Text) (s : Staged)
    → get id fs.staged_files ≡ some s
    → s.file.id ≡ id
    → is_plain s.file.id ≡ true
    → is_plain s.file.file_name ≡ true
    → IsFound (staged_file_info s.file) fs
unfolding staged_file_info
staged_file_info-IsFound fs id s found named plain plain' =
    let here : get s.file.id fs.staged_files ≡ some s =
      ap (λ i. get i fs.staged_files) named ∙ found in
    (
      s,
      path_of s.file.id s.file.file_name,
      join_plain s.file.id s.file.file_name plain plain',
      find_file-found fs s.file.id s.file.file_name s (is_plain-slash s.file.id plain)
          (is_plain-slash s.file.file_name plain') here refl,
      refl,
    )

-- After fewer than 2^31 calls on a new file system, each entry that GetStagedFiles lists, with an
-- ID and a name that Join keeps as they are, is that of the staged file that the file system finds at its path.
pub get_staged_files-IsFound :
    (mode skip : Bool) (calls : List Call) (info : StagedFileInfo)
    → length calls < int32_limit
    → is_plain info.id ≡ true
    → is_plain info.file_name ≡ true
    → Memᴰ info (get_staged_files (some (after mode skip calls)))
    → IsFound info (after mode skip calls)
unfolding get_staged_files Fs.get_staged_files staged_file_info
get_staged_files-IsFound mode skip calls info small plain plain' listed =
    let fs = after mode skip calls in
    let v = after-Inv mode skip calls small in
    let (id, s, found, e) = files_of-entry fs.staged_files info v.distinct listed in
    subst (λ i. IsFound i fs) (sym e)
      (staged_file_info-IsFound fs id s found (v.counted id s found).1
        (ap (λ i. is_plain i.id) (sym e) ∙ plain) (ap (λ i. is_plain i.file_name) (sym e) ∙ plain'))

Staging-cases : (x : Staging) → ((f : StagedFile) × (x ≡ staged f)) ⊎ ((e : Error) × (x ≡ fails e))
Staging-cases (staged f) = inl (f, refl)
Staging-cases (fails e) = inr (e, refl)

-- What StageForUpload promises where it has staged a file.
abbrev pub IsOffered : Option Fs × StageResponse → Type 0
IsOffered result =
    (fs : Fs) × (info : StagedFileInfo) × (result.0 ≡ some fs)
    × Memᴰ info (get_staged_files (some fs))
    × (info.file_path ≡ result.1.file_path)
    × (is_plain info.id ≡ true
        → is_plain info.file_name ≡ true
        → (path : Text) × (info.file_path ≡ some path)
          × ((open_file path fs).1 ≡ opened fs.next_fh))

staged-IsOffered :
    (n : ℕ) (r : Request) (env : Env) (fs : Fs) (f : StagedFile)
    → n < int32_limit
    → Inv n fs
    → (stage_file r env fs).1 ≡ staged f
    → IsOffered (some (stage_file r env fs).0, response_of (staged f))
unfolding get_staged_files Fs.get_staged_files staged_file_info response_of
staged-IsOffered n r env fs f small v e =
    let fs' = (stage_file r env fs).0 in
    let id = staged_id r.file_id r.recipient_tag in
    let (s, st, found, same, tile, store, here) =
      subst (IsAnswered id fs') e (stage_file-IsAnswered r env fs) in
    (
      fs',
      staged_file_info f,
      refl,
      subst (λ g. Memᴰ (staged_file_info g) (get_staged_files (some fs'))) same
          (files_of-listed fs'.staged_files id s found),
      refl,
      λ plain plain'. (
        path_of f.id f.file_name,
        join_plain f.id f.file_name plain plain',
        stage_file-open_file n r env fs f small v e (is_plain-slash f.id plain)
            (is_plain-slash f.file_name plain'),
      ),
    )

-- When StageForUpload reports success after fewer than 2^31 calls on a new file system, the path of
-- its response is that of an entry that GetStagedFiles lists, and if the ID and the name of the
-- entry have no slash and are neither empty nor '.' nor '..', this path is below the mountpoint and
-- Open of it succeeds.
pub stage_for_upload-IsOffered :
    (mode skip : Bool) (calls : List Call) (r : Request) (env : Env)
    → length calls < int32_limit
    → (stage_for_upload r env (some (after mode skip calls))).1.success ≡ true
    → IsOffered (stage_for_upload r env (some (after mode skip calls)))
unfolding stage_for_upload response_of
stage_for_upload-IsOffered mode skip calls r env small done =
    let fs = after mode skip calls in
    elim (Staging-cases (stage_file r env fs).1) [
      | inr (failure, e) ↦ absurd (ground arith)
      | inl (f, e) ↦
          rw e
            (staged-IsOffered (length calls) r env fs f small (after-Inv mode skip calls small) e)
    ]
