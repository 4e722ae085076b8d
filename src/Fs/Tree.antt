-- ===== src/Fs/Tree.antt =====
-- internal/fs/fs_fuse.go: the callbacks that look at the tree and change nothing.
--
-- `fill` is the function that FUSE passes to Readdir: whether it takes one more name. The user and
-- group that Getattr reports are those of the process, and are left out.
use fuse_stream_mvp.Base.{
  ℕ, ◌/◌, ◌%◌, Bool, ◌||◌, not, Option, none, some, List, [], ◌∷◌, ◌==◌, if◌then◌else◌,
}
use fuse_stream_mvp.Base.Maps.{Map, Text, get, nat_eq, text_eq}
use fuse_stream_mvp.Fs.{
  Fs, Staged, Errno, enoent, eio, ebadf, eacces, enotdir, erofs, enosys, find_file,
}
use fuse_stream_mvp.Fs.Paths.{
  root, staged_dir, subdirectory, file_in, elsewhere, place_of, staged_dir_name,
}

pub data Kind : Type 0 where
  directory regular : Kind

-- `perm` is the mode without the bits of the kind; the three times are one.
pub record Stat : Type 0 where
  pub kind : Kind
  pub perm : ℕ
  pub nlink : ℕ
  pub size : ℕ
  pub time : ℕ

pub data Attr : Type 0 where
  attr : Stat → Attr
  no_attr : Errno → Attr

-- 0755
abbrev pub a_directory : Stat
a_directory = record { kind = directory; perm = 493; nlink = 2; size = 0; time = 0 }

-- 0644
abbrev pub a_file : Staged → Stat
a_file s = record {
  kind = regular;
  perm = 420;
  nlink = 1;
  size = s.file.size;
  time = s.file.mod_time;
}

unfoldable pub getattr : Text → Fs → Attr
getattr path fs = elim (place_of path) [
  | root ↦ attr a_directory
  | staged_dir ↦ attr a_directory
  | subdirectory id ↦ elim (get id fs.staged_files) [
    | none ↦ no_attr enoent
    | some s ↦ attr a_directory
  ]
  | file_in id name ↦ elim (find_file path fs) [
    | none ↦ no_attr enoent
    | some (i, s) ↦ attr (a_file s)
  ]
  | elsewhere ↦ no_attr enoent
]

-- The names that `fill` is called with, up to the first that it does not take.
unfoldable pub fill_each : (Text → Bool) → List Text → List Text
fill_each fill [] = []
fill_each fill (name ∷ names) =
    let rest = fill_each fill names in if fill name then name ∷ rest else name ∷ []

abbrev pub ids : Map Text Staged → List Text
ids [] = []
ids ((id, s) ∷ m) = id ∷ ids m

-- "." and ".."
abbrev pub dots : List Text → List Text
dots names = (b'.' ∷ []) ∷ (b'.' ∷ b'.' ∷ []) ∷ names

pub data Listing : Type 0 where
  lists : List Text → Listing
  no_listing : Errno → Listing

unfoldable pub readdir : (Text → Bool) → Text → Fs → Listing
readdir fill path fs = elim (place_of path) [
  | root ↦ lists (fill_each fill (dots (staged_dir_name ∷ [])))
  | staged_dir ↦ lists (fill_each fill (dots (ids fs.staged_files)))
  | subdirectory id ↦ elim (get id fs.staged_files) [
    | none ↦ no_listing enoent
    | some s ↦ lists (fill_each fill (dots (s.file.file_name ∷ [])))
  ]
  | file_in id name ↦ no_listing enoent
  | elsewhere ↦ no_listing enoent
]

-- `none` is success.
unfoldable pub opendir : Text → Fs → Option Errno
opendir path fs = elim (getattr path fs) [
  | no_attr e ↦ some e
  | attr stat ↦ elim stat.kind [ directory ↦ none | regular ↦ some enotdir ]
]

unfoldable pub access : Text → ℕ → Fs → Option Errno
access path mask fs = elim (getattr path fs) [
  | no_attr e ↦ some e
  | attr stat ↦ if not (mask / 2 % 2 == 0) || not (mask % 2 == 0) then some eacces else none
]

-- What ReadAt of a store ends with besides the number of bytes.
pub data ReadError : Type 0 where
  eof failed : ReadError

pub data Reply : Type 0 where
  bytes : ℕ → Reply
  no_bytes : Errno → Reply

unfoldable pub reply_of : ℕ → Option ReadError → Reply
reply_of n err = elim err [
  | none ↦ bytes n
  | some eof ↦ bytes n
  | some failed ↦ if n == 0 then no_bytes eio else bytes n
]

-- `read_at` is the store's ReadAt.
unfoldable pub read : (ℕ → ℕ × Option ReadError) → ℕ → Fs → Reply
read read_at fh fs = elim (get fh fs.handles) [
  | none ↦ no_bytes ebadf
  | some h ↦ let (n, err) = read_at h.store in reply_of n err
]

-- The callbacks that do nothing but answer; `none` is success.
pub data Stub : Type 0 where
  chmod chown utimens create mkdir unlink rmdir rename truncate write flush fsync releasedir : Stub
  fsyncdir readlink symlink link setxattr getxattr removexattr listxattr mknod : Stub

unfoldable pub stub_answer : Stub → Option Errno
stub_answer flush = none
stub_answer fsync = none
stub_answer releasedir = none
stub_answer fsyncdir = none
stub_answer readlink = some enosys
stub_answer setxattr = some enosys
stub_answer getxattr = some enosys
stub_answer removexattr = some enosys
stub_answer listxattr = some enosys
stub_answer _ = some erofs

-- `fuse.Statfs_t`
pub record Statfs : Type 0 where
  pub bsize : ℕ
  pub frsize : ℕ
  pub blocks : ℕ
  pub bfree : ℕ
  pub bavail : ℕ
  pub files : ℕ
  pub ffree : ℕ
  pub favail : ℕ
  pub namemax : ℕ

-- The same for every path, and always a success.
abbrev pub statfs : Text → Statfs
statfs path = record {
  bsize = 4096;
  frsize = 4096;
  blocks = 1000000;
  bfree = 1000000;
  bavail = 1000000;
  files = 1000;
  ffree = 1000;
  favail = 1000;
  namemax = 255;
}
