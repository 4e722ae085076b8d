-- ===== src/Fs/Opening.antt =====
-- internal/fs/fs_fuse.go: the path of a staged file leads to it, and Open finds it there.
use fuse_stream_mvp.Base.{
  ℕ, ◌<◌, ◌≡◌, refl, ◌∙◌, sym, ap, subst, List, ◌||◌, true, false, some, [], ◌∷◌, ◌++◌, arith,
  contains,
}
use mathlib.Core.List.{append_assoc}
use fuse_stream_mvp.Base.Maps.{Text, text_beq, text_beq_iff, get, nat_eq, text_eq}
use fuse_stream_mvp.Fs.{
  Fs, Staged, StagedFile, opened, open_file, find_file, register_handle, is_evicted,
}
use fuse_stream_mvp.Fs.Paths.{
  slash, split, cut_prefix, trim_slash, file_in, below_staged, place_of, path_of, staged_id,
  is_plain, join, clean, dot, dot_dot, staged_dir_name,
}
use fuse_stream_mvp.Fs.Invariant.{Inv, int32_limit}
use fuse_stream_mvp.Fs.Stage.{Request, Env, staged, stage_file}
use fuse_stream_mvp.Fs.Staging.{IsAnswered, stage_file-IsAnswered}
use fuse_stream_mvp.Fs.Runs.{stage_file-Inv}

pub split-part : (text : Text) → contains slash text ≡ false → split text ≡ text ∷ []
unfolding split contains
split-part [] plain = refl
split-part (c ∷ cs) plain = ground (arith, split-part cs)

split-append :
    (part text : Text)
    → contains slash part ≡ false
    → split (part ++ slash ∷ text) ≡ part ∷ split text
unfolding split contains
split-append [] text plain = refl
split-append (c ∷ cs) text plain = ground (arith, split-append cs text)

-- For an ID and a file name without a slash, the path /Staged/ID/name is read as the path of that name under that ID.
pub place_of-path_of :
    (id name : Text)
    → contains slash id ≡ false
    → contains slash name ≡ false
    → place_of (path_of id name) ≡ file_in id name
unfolding place_of path_of trim_slash cut_prefix below_staged
place_of-path_of id name plain plain' = rw (split-append id name plain, split-part name plain') refl

open_file-found :
    (path : Text) (fs : Fs) (id name : Text) (s : Staged) (st : ℕ)
    → place_of path ≡ file_in id name
    → get id fs.staged_files ≡ some s
    → s.file.file_name ≡ name
    → s.store ≡ some st
    → is_evicted st fs.stores ≡ false
    → (open_file path fs).1 ≡ opened fs.next_fh
unfolding open_file find_file register_handle
open_file-found path fs id name s st at e named f here =
    rw (open_file, find_file, at, e, (text_beq_iff s.file.file_name name).1 named, f, here) refl

-- When StageFile succeeds in a state reached by fewer than 2^31 calls (`Inv n fs`) and neither the ID
-- nor the name of the returned file has a slash, Open of the file's path succeeds right after it.
pub stage_file-open_file :
    (n : ℕ) (r : Request) (env : Env) (fs : Fs) (file : StagedFile)
    → n < int32_limit
    → Inv n fs
    → (stage_file r env fs).1 ≡ staged file
    → contains slash file.id ≡ false
    → contains slash file.file_name ≡ false
    → (open_file (path_of file.id file.file_name) (stage_file r env fs).0).1
      ≡ opened (stage_file r env fs).0.next_fh
stage_file-open_file n r env fs file small v e plain plain' =
    let id = staged_id r.file_id r.recipient_tag in
    let fs' = (stage_file r env fs).0 in
    let w = stage_file-Inv n r env fs small v in
    let (s, st, found, same, tile, store, here) =
      subst (IsAnswered id fs') e (stage_file-IsAnswered r env fs) in
    let named : file.id ≡ id = sym (ap (λ f. f.id) same) ∙ (w.counted id s found).1 in
    open_file-found (path_of file.id file.file_name) fs' file.id file.file_name s st
      (place_of-path_of file.id file.file_name plain plain')
      (ap (λ i. get i fs'.staged_files) named ∙ found) (ap (λ f. f.file_name) same) store here

not_dotted : (part : Text) → is_plain part ≡ true → (text_beq part [] || text_beq part dot) ≡ false
not_dotted part plain = ground (arith, plain)

not_up : (part : Text) → is_plain part ≡ true → text_beq part dot_dot ≡ false
not_up part plain = ground (arith, plain)

pub is_plain-slash : (part : Text) → is_plain part ≡ true → contains slash part ≡ false
is_plain-slash part plain = ground (arith, plain)

clean-plain :
    (parts_done parts : List Text) (part : Text)
    → is_plain part ≡ true
    → clean parts_done (part ∷ parts) ≡ clean (part ∷ parts_done) parts
unfolding clean
clean-plain parts_done parts part plain = rw (clean, not_dotted part plain, not_up part plain) refl

split-staged :
    (text : Text) → split (staged_dir_name ++ slash ∷ text) ≡ staged_dir_name ∷ split text
unfolding split
split-staged text = refl

clean_nil : (parts_done : List Text) → clean parts_done [] ≡ some parts_done
unfolding clean
clean_nil parts_done = refl

staged-is_plain : is_plain staged_dir_name ≡ true
unfolding contains
staged-is_plain = refl

-- Join keeps the path of an ID and a name that are plain.
pub join_plain :
    (id name : Text)
    → is_plain id ≡ true
    → is_plain name ≡ true
    → join id name ≡ some (path_of id name)
unfolding join path_of
join_plain id name plain plain' =
    let parts : split (staged_dir_name ++ slash ∷ (id ++ slash ∷ name))
        ≡ staged_dir_name ∷ id ∷ name ∷ [] =
      split-staged (id ++ slash ∷ name)
      ∙ ap (◌∷◌ staged_dir_name) (
          split-append id name (is_plain-slash id plain)
          ∙ ap (◌∷◌ id) (split-part name (is_plain-slash name plain'))) in
    let cleaned : clean [] (staged_dir_name ∷ id ∷ name ∷ [])
        ≡ some (name ∷ id ∷ staged_dir_name ∷ []) =
      clean-plain [] (id ∷ name ∷ []) staged_dir_name staged-is_plain
      ∙ clean-plain (staged_dir_name ∷ []) (name ∷ []) id plain
      ∙ clean-plain (id ∷ staged_dir_name ∷ []) [] name plain'
      ∙ clean_nil (name ∷ id ∷ staged_dir_name ∷ []) in
    rw (join, parts, cleaned)
      (ap some (append_assoc (slash ∷ staged_dir_name) (slash ∷ id) (slash ∷ name)))
