-- ===== src/Fs/Agreement.antt =====
-- internal/fs/fs_fuse.go: the callbacks agree on what stands at a path.
use fuse_stream_mvp.Base.{
  ◌≡◌, refl, ◌≢◌, ◌⊎◌, inl, inr, ◌∙◌, ap, Bool, true, false, none, some, List, [], ◌∷◌, ◌++◌, arith,
  contains, Bool-cases, Option-cases,
}
use fuse_stream_mvp.Base.Maps.{
  Map, Text, text_beq, text_beq_iff, text_beq_refl, get, nat_eq, text_eq,
}
use fuse_stream_mvp.Fs.{Fs, Staged, refused, enoent, enotdir, open_file, find_file, register_handle}
use fuse_stream_mvp.Fs.Paths.{
  slash, cut_prefix, trim_slash, Place, root, staged_dir, subdirectory, file_in, elsewhere,
  below_staged, place_of, path_of, staged_dir_name,
}
use fuse_stream_mvp.Fs.Tree.{
  attr, no_attr, a_directory, a_file, getattr, lists, no_listing, readdir, fill_each, ids, dots,
  opendir,
}
use fuse_stream_mvp.Fs.Opening.{place_of-path_of, split-part}

-- A directory: Opendir and Readdir succeed, and Open finds no file.
abbrev pub IsDirectory : (Text → Bool) → Text → Fs → Type 0
IsDirectory fill path fs =
    (names : List Text) × (getattr path fs ≡ attr a_directory)
    × (opendir path fs ≡ none)
    × (readdir fill path fs ≡ lists names)
    × ((open_file path fs).1 ≡ refused enoent)

-- A file: Opendir says that it is no directory, and Open opens it or answers EIO.
abbrev pub IsFile : (Text → Bool) → Text → Fs → Type 0
IsFile fill path fs =
    (s : Staged) × (getattr path fs ≡ attr (a_file s))
    × (opendir path fs ≡ some enotdir)
    × (readdir fill path fs ≡ no_listing enoent)
    × ((open_file path fs).1 ≢ refused enoent)

abbrev pub IsMissing : (Text → Bool) → Text → Fs → Type 0
IsMissing fill path fs =
    (getattr path fs ≡ no_attr enoent)
    × (opendir path fs ≡ some enoent)
    × (readdir fill path fs ≡ no_listing enoent)
    × ((open_file path fs).1 ≡ refused enoent)

open_file-absent :
    (path : Text) (fs : Fs) → find_file path fs ≡ none → (open_file path fs).1 ≡ refused enoent
unfolding open_file
open_file-absent path fs e = rw (e, open_file) refl

open_file-present :
    (path : Text) (fs : Fs) (id : Text) (s : Staged)
    → find_file path fs ≡ some (id, s)
    → (open_file path fs).1 ≢ refused enoent
unfolding open_file register_handle
open_file-present path fs id s e = ground arith

tree_at :
    (fill : Text → Bool) (path : Text) (fs : Fs) (names : List Text)
    → getattr path fs ≡ attr a_directory
    → readdir fill path fs ≡ lists names
    → find_file path fs ≡ none
    → IsDirectory fill path fs
unfolding opendir
tree_at fill path fs names e f g = (names, e, rw (e, opendir) refl, f, open_file-absent path fs g)

nothing_at :
    (fill : Text → Bool) (path : Text) (fs : Fs)
    → getattr path fs ≡ no_attr enoent
    → readdir fill path fs ≡ no_listing enoent
    → find_file path fs ≡ none
    → IsMissing fill path fs
unfolding opendir
nothing_at fill path fs e f g = (e, rw (e, opendir) refl, f, open_file-absent path fs g)

agree_below :
    (fill : Text → Bool) (path id : Text) (fs : Fs)
    → place_of path ≡ subdirectory id
    → IsDirectory fill path fs ⊎ IsMissing fill path fs
unfolding getattr readdir find_file
agree_below fill path id fs e = elim (Option-cases (get id fs.staged_files)) [
  | inl gone ↦ inr (
      nothing_at fill path fs (rw (e, gone, getattr) refl) (rw (e, gone, readdir) refl)
        (rw (e, find_file) refl))
  | inr (s, f) ↦ inl (
      tree_at fill path fs (fill_each fill (dots (s.file.file_name ∷ []))) (rw (e, f, getattr) refl)
        (rw (e, f, readdir) refl) (rw (e, find_file) refl))
]

agree_inside :
    (fill : Text → Bool) (path id name : Text) (fs : Fs)
    → place_of path ≡ file_in id name
    → IsFile fill path fs ⊎ IsMissing fill path fs
unfolding getattr readdir opendir
agree_inside fill path id name fs e = elim (Option-cases (find_file path fs)) [
  | inl gone ↦
      inr (nothing_at fill path fs (rw (e, gone, getattr) refl) (rw (e, readdir) refl) gone)
  | inr ((i, s), f) ↦
      let here : getattr path fs ≡ attr (a_file s) = rw (e, f, getattr) refl in
      inl (s, here, rw (here, opendir) refl, rw (e, readdir) refl, open_file-present path fs i s f)
]

-- At every path, Getattr, Opendir, Readdir and Open agree on a directory, a file or nothing.
pub callbacks_agree :
    (fill : Text → Bool) (path : Text) (fs : Fs)
    → IsDirectory fill path fs ⊎ (IsFile fill path fs ⊎ IsMissing fill path fs)
unfolding getattr readdir find_file
callbacks_agree fill path fs = go (place_of path) refl
  where
    go :
        (p : Place)
        → place_of path ≡ p
        → IsDirectory fill path fs ⊎ (IsFile fill path fs ⊎ IsMissing fill path fs)
    go root e = inl (
        tree_at fill path fs (fill_each fill (dots (staged_dir_name ∷ []))) (rw (e, getattr) refl)
          (rw (e, readdir) refl) (rw (e, find_file) refl))
    go staged_dir e = inl (
        tree_at fill path fs (fill_each fill (dots (ids fs.staged_files))) (rw (e, getattr) refl)
          (rw (e, readdir) refl) (rw (e, find_file) refl))
    go elsewhere e = inr (
        inr (
          nothing_at fill path fs (rw (e, getattr) refl) (rw (e, readdir) refl)
            (rw (e, find_file) refl)))
    go (subdirectory id) e = ground (arith, agree_below fill path id fs e)
    go (file_in id name) e = inr (agree_inside fill path id name fs e)

fill_each-all :
    (fill : Text → Bool) (names : List Text)
    → ((n : Text) → fill n ≡ true)
    → fill_each fill names ≡ names
unfolding fill_each
fill_each-all fill [] takes = refl
fill_each-all fill (n ∷ ns) takes = rw (takes n, fill_each-all fill ns takes) refl

-- "/Staged/" followed by the ID
abbrev pub directory_of : Text → Text
directory_of id = (slash ∷ staged_dir_name) ++ slash ∷ id

place_of-directory_of :
    (id : Text) → contains slash id ≡ false → place_of (directory_of id) ≡ subdirectory id
unfolding place_of trim_slash cut_prefix below_staged
place_of-directory_of id plain = rw (split-part id plain) refl

place_of_staged_dir : place_of (slash ∷ staged_dir_name) ≡ staged_dir
unfolding place_of trim_slash cut_prefix
place_of_staged_dir = refl

ids-split :
    (id : Text) (s : Staged) (m : Map Text Staged)
    → get id m ≡ some s
    → (before : List Text) × (after : List Text) × (ids m ≡ before ++ id ∷ after)
unfolding get
ids-split id s [] e = absurd (ground arith)
ids-split id s ((j, t) ∷ m) e = elim (Bool-cases (text_beq j id)) [
  | inl same ↦ ([], ids m, ap (λ k. k ∷ ids m) ((text_beq_iff j id).0 same))
  | inr other ↦
      let (before, after, split_at) = ids-split id s m (ground arith) in
      (j ∷ before, after, ap (◌∷◌ j) split_at)
]

-- A staged file whose ID and name have no slash is seen, when `fill` takes all names: Readdir of
-- /Staged lists the ID, Getattr of its directory finds one, Readdir of this directory lists the name
-- alone, and Getattr of the file's path gives its size and time.
pub staged_file_is_seen :
    (fill : Text → Bool) (id : Text) (s : Staged) (fs : Fs)
    → ((n : Text) → fill n ≡ true)
    → get id fs.staged_files ≡ some s
    → contains slash id ≡ false
    → contains slash s.file.file_name ≡ false
    → (before : List Text) × (after : List Text) × (readdir fill (slash ∷ staged_dir_name) fs
        ≡ lists (dots (before ++ id ∷ after)))
      × (getattr (directory_of id) fs ≡ attr a_directory)
      × (readdir fill (directory_of id) fs ≡ lists (dots (s.file.file_name ∷ [])))
      × (getattr (path_of id s.file.file_name) fs ≡ attr (a_file s))
unfolding readdir getattr find_file
staged_file_is_seen fill id s fs takes e plain plain' =
    let at = place_of-directory_of id plain in
    let at' = place_of-path_of id s.file.file_name plain plain' in
    let (before, after, listed) = ids-split id s fs.staged_files e in
    let all = λ (names : List Text). fill_each-all fill names takes in
    (
      before,
      after,
      rw (place_of_staged_dir, readdir) (ap lists (all _ ∙ ap dots listed)),
      rw (at, e, getattr) refl,
      rw (at, e, readdir) (ap lists (all _)),
      rw (at', getattr, find_file, at', e, text_beq_refl s.file.file_name) refl,
    )
