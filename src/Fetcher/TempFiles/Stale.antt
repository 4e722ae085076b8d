-- ===== src/Fetcher/TempFiles/Stale.antt =====
-- internal/fetcher/tempfile_manager.go: the temp files that an earlier run has left behind.
--
-- The directory is the list of its names. `globs` is what filepath.Glob answers to the pattern: `none`
-- where it fails, which it does for a bad pattern, or else which names it matches. The directory is a
-- part of the pattern, so that its metacharacters count. `removes` says whether os.Remove succeeds on a
-- name.
use fuse_stream_mvp.Base.{
  ◌-◌, ◌≡◌, refl, Bool, true, false, ◌&&◌, Option, none, some, List, [], ◌∷◌, ◌++◌, arith,
  if◌then◌else◌, length, length-append, drop, either_of,
}
use fuse_stream_mvp.Base.Maps.{Text, text_beq}
use fuse_stream_mvp.Fs.Paths.{cut_prefix}

-- "fsmvp-"
abbrev pub temp_file_prefix : Text
temp_file_prefix = b'f' ∷ b's' ∷ b'm' ∷ b'v' ∷ b'p' ∷ b'-' ∷ []

-- ".tmp"
abbrev pub temp_file_suffix : Text
temp_file_suffix = b'.' ∷ b't' ∷ b'm' ∷ b'p' ∷ []

abbrev pub has_suffix : Text → Text → Bool
has_suffix suffix text = text_beq (drop (length text - length suffix) text) suffix

-- What the pattern asks of a name in a directory without metacharacters.
unfoldable pub is_stale : Text → Bool
is_stale name = elim (cut_prefix temp_file_prefix name) [
  | none ↦ false
  | some rest ↦ has_suffix temp_file_suffix rest
]

unfoldable pub remove_matches : (Text → Bool) → (Text → Bool) → List Text → List Text
remove_matches matches removes [] = []
remove_matches matches removes (name ∷ names) =
    let rest = remove_matches matches removes names in
    if matches name && removes name then rest else name ∷ rest

unfoldable pub cleanup_stale_files : Option (Text → Bool) → (Text → Bool) → List Text → List Text
cleanup_stale_files none removes names = names
cleanup_stale_files (some matches) removes names = remove_matches matches removes names

-- The name that os.CreateTemp makes from the pattern.
unfoldable pub temp_name : Text → Text
temp_name random = temp_file_prefix ++ random ++ temp_file_suffix

-- No name is left that the pattern matches and the system removes.
abbrev pub IsClean : (Text → Bool) → (Text → Bool) → List Text → Type 0
IsClean matches removes [] = Unit {0}
IsClean matches removes (name ∷ names) =
    ((matches name && removes name) ≡ false) × IsClean matches removes names

-- What the clean-up leaves of the names: all of them where Glob fails.
abbrev pub IsCleanedUp : Option (Text → Bool) → (Text → Bool) → List Text → List Text → Type 0
IsCleanedUp none removes names left = left ≡ names
IsCleanedUp (some matches) removes names left = IsClean matches removes left

remove_matches-IsClean :
    (matches removes : Text → Bool) (names : List Text)
    → IsClean matches removes (remove_matches matches removes names)
unfolding remove_matches
remove_matches-IsClean matches removes [] = tt
remove_matches-IsClean matches removes (name ∷ names) =
    let rest = remove_matches-IsClean matches removes names in
    either_of (IsClean matches removes) (matches name && removes name) (λ gone. rest)
      (λ kept. (kept, rest))

pub cleanup_stale_files-IsCleanedUp :
    (globs : Option (Text → Bool)) (removes : Text → Bool) (names : List Text)
    → IsCleanedUp globs removes names (cleanup_stale_files globs removes names)
unfolding cleanup_stale_files
cleanup_stale_files-IsCleanedUp none removes names = refl
cleanup_stale_files-IsCleanedUp (some matches) removes names =
    remove_matches-IsClean matches removes names

drop-length-append : (xs ys : Text) → drop (length xs) (xs ++ ys) ≡ ys
unfolding drop
drop-length-append [] ys = refl
drop-length-append (x ∷ xs) ys = drop-length-append xs ys

pub temp_name-is_stale : (random : Text) → is_stale (temp_name random) ≡ true
unfolding is_stale temp_name cut_prefix
temp_name-is_stale random =
    let e : length (random ++ temp_file_suffix) - 4 ≡ length random =
      omega (arith, length-append random temp_file_suffix) in
    rw (e, drop-length-append random temp_file_suffix) refl
