-- ===== src/Fs/Paths.antt =====
-- internal/fs/fs_fuse.go: how the FUSE callbacks read a path. A path is the list of its bytes.
use fuse_stream_mvp.Base.{
  ℕ, Option, none, some, List, [], ◌∷◌, ◌++◌, ◌==◌, if◌then◌else◌, Bool, not, ◌&&◌, ◌||◌, contains,
}
use fuse_stream_mvp.Base.Maps.{Text, text_beq}

abbrev pub slash : ℕ
slash = b'/'

-- "Staged"
abbrev pub staged_dir_name : Text
staged_dir_name = b'S' ∷ b't' ∷ b'a' ∷ b'g' ∷ b'e' ∷ b'd' ∷ []

-- The rest of the text behind the prefix, if it has that prefix: `strings.HasPrefix` together with
-- `strings.TrimPrefix`.
unfoldable pub cut_prefix : Text → Text → Option Text
cut_prefix [] text = some text
cut_prefix (p ∷ ps) [] = none
cut_prefix (p ∷ ps) (c ∷ cs) = if p == c then cut_prefix ps cs else none

-- `strings.TrimPrefix(path, "/")`
unfoldable pub trim_slash : Text → Text
trim_slash path = elim (cut_prefix (slash ∷ []) path) [ none ↦ path | some rest ↦ rest ]

-- A byte put in front of the first part.
abbrev pub onto_first : ℕ → List Text → List Text
onto_first c [] = (c ∷ []) ∷ []
onto_first c (part ∷ parts) = (c ∷ part) ∷ parts

-- `strings.Split(text, "/")`
unfoldable pub split : Text → List Text
split [] = [] ∷ []
split (c ∷ cs) = let rest = split cs in if c == slash then [] ∷ rest else onto_first c rest

-- Where a path leads by its form alone.
pub data Place : Type 0 where
  root staged_dir elsewhere : Place
  subdirectory : Text → Place
  file_in : Text → Text → Place

abbrev pub place_of_parts : List Text → Place
place_of_parts (id ∷ []) = subdirectory id
place_of_parts (id ∷ name ∷ []) = file_in id name
place_of_parts _ = elsewhere

unfoldable pub below_staged : Text → Place
below_staged path = elim (cut_prefix (staged_dir_name ++ slash ∷ []) path) [
  | none ↦ elsewhere
  | some rest ↦ place_of_parts (split rest)
]

unfoldable pub place_of : Text → Place
place_of path = elim (trim_slash path) [
  | [] ↦ root
  | c ∷ cs ↦ if text_beq (c ∷ cs) staged_dir_name then staged_dir else below_staged (c ∷ cs)
]

-- `fmt.Sprintf("%s_%s", fileID, recipientTag)`
unfoldable pub staged_id : Text → Text → Text
staged_id file_id recipient_tag = file_id ++ b'_' ∷ recipient_tag

-- The path /Staged/ID/name.
unfoldable pub path_of : Text → Text → Text
path_of id name = (slash ∷ staged_dir_name) ++ (slash ∷ (id ++ (slash ∷ name)))

abbrev pub dot : Text
dot = b'.' ∷ []

abbrev pub dot_dot : Text
dot_dot = b'.' ∷ b'.' ∷ []

abbrev pub without_last : List Text → Option (List Text)
without_last [] = none
without_last (part ∷ parts) = some parts

-- What Join makes of the parts of a path: it leaves out empty parts and ".", and ".." takes the part
-- before it away. The parts done are in reverse; `none` where ".." leads above the start.
unfoldable pub clean : List Text → List Text → Option (List Text)
clean parts_done [] = some parts_done
clean parts_done (part ∷ parts) =
    if text_beq part [] || text_beq part dot
    then clean parts_done parts
    else if text_beq part dot_dot
    then elim (without_last parts_done) [ none ↦ none | some up ↦ clean up parts ]
    else clean (part ∷ parts_done) parts

abbrev pub path_text : List Text → Text
path_text [] = []
path_text (part ∷ parts) = path_text parts ++ slash ∷ part

-- `filepath.Join(fs.mountpoint, stagedDirName, ID, FileName)`, less the mountpoint; `none` where the
-- path leaves the mountpoint.
unfoldable pub join : Text → Text → Option Text
join id name = elim (clean [] (split (staged_dir_name ++ slash ∷ (id ++ slash ∷ name)))) [
  | none ↦ none
  | some parts ↦ some (path_text parts)
]

-- A part of a path that Join keeps as it is.
abbrev pub is_plain : Text → Bool
is_plain part =
    not (contains slash part)
    && not (text_beq part [] || text_beq part dot)
    && not (text_beq part dot_dot)
