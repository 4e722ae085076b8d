-- ===== src/Logging/FileLogger/Rotation.antt =====
-- internal/logging/logger.go: what a rotation does to the log files.
use fuse_stream_mvp.Base.{
  ℕ, zero, suc, ◌≡◌, ◌≢◌, refl, ◌∙◌, ap, inl, inr, Bool, not, true, false, Option, none, some, ◌++◌,
  arith, ◌==◌, leb, ltb, ◌&&◌, ◌-◌, if◌then◌else◌, Option-cases, Bool-cases,
}
use fuse_stream_mvp.Logging.FileLogger.{
  Bytes, Disk, Host, FileLogger, set, rename, rotate_from, append_log, content, exists, shift_files,
  start_log, rotate_logs_locked,
}

-- The files after a rotation: the log is new, each file has the content of the one before, the last is
-- gone, and other files stay.
abbrev pub shifted : Bytes → Disk → Disk
shifted marker d k =
    if k == 0
    then some marker
    else if k == 1
    then d 0
    else if k == 2
    then d 1
    else if k == 3
    then d 2
    else if k == 4
    then d 3
    else d k

-- A rotation in which every operation of the system succeeds.
pub record Works (h : Host) : Type 0 where
  pub closes : h.closes ≡ true
  pub removes : h.removes ≡ true
  pub renames : (i : ℕ) → h.renames i ≡ true
  pub opens : h.opens ≡ true

-- A rename to a free name.
rename_free :
    (i j k : ℕ) (d : Disk)
    → i ≢ j
    → d j ≡ none
    → rename true i j d k ≡ (if k == j then d i else if k == i then none else d k)
unfolding rename
rename_free i j k d h free = elim (Option-cases (d i)) [
  | inl missing ↦ rw missing (grind (arith))
  | inr (b, there) ↦ rw there (grind (arith))
]

shift_more :
    (n k : ℕ) (d d' : Disk)
    → ((j : ℕ) → d' j ≡ (if j == suc (suc n) then d (suc n) else if j == suc n then none else d j))
    → (if k == 1 then none else if leb k (suc n) && ltb 1 k then d' (k - 1) else d' k)
      ≡ (if k == 1 then none else if leb k (suc (suc n)) && ltb 1 k then d (k - 1) else d k)
shift_more n k d d' at = elim (Bool-cases (leb k (suc n))) [
  | inl low ↦ ground (arith, at k, at (k - 1))
  | inr high ↦ elim (Bool-cases (k == suc (suc n))) [
    | inl is ↦ let e : d (k - 1) ≡ d (suc n) = ap d (ground arith) in ground (arith, at k)
    | inr above ↦ ground (arith, at k)
  ]
]

-- The loop below a free name.
pub rotate_from-free :
    (renames : ℕ → Bool) (n k : ℕ) (d : Disk)
    → ((i : ℕ) → renames i ≡ true)
    → d (suc n) ≡ none
    → rotate_from renames n d k
      ≡ (if k == 1 then none else if leb k (suc n) && ltb 1 k then d (k - 1) else d k)
unfolding rotate_from
rotate_from-free renames zero k d works free = grind (arith)
rotate_from-free renames (suc n) k d works free = rw (works (suc n)) (
    let d' = rename true (suc n) (suc (suc n)) d in
    let at : (j : ℕ)
        → d' j ≡ (if j == suc (suc n) then d (suc n) else if j == suc n then none else d j) =
      λ j. rename_free (suc n) (suc (suc n)) j d (omega arith) free in
    let rest = rotate_from-free renames n k d' works (at (suc n) ∙ ground arith) in
    rest ∙ shift_more n k d d' at)

shift_files-shifted :
    (h : Host) (k : ℕ) (d : Disk)
    → Works h
    → shift_files h d k ≡ (if k == 1 then none else if leb k 4 && ltb 1 k then d (k - 1) else d k)
unfolding shift_files
shift_files-shifted h k d w =
    rw w.removes (rotate_from-free h.renames 3 k (set 4 none d) w.renames refl ∙ grind (arith))

and_not_of : (b c : Bool) → c ≡ true → (b && not c) ≡ false
and_not_of b c e = ground arith

rotate_logs_locked-Works :
    (h : Host) (l : FileLogger)
    → Works h
    → rotate_logs_locked h l ≡ (
      record l {
        disk = append_log h.marker (rename true 0 1 (shift_files h l.disk));
        file_open = true;
      },
      true,
    )
unfolding rotate_logs_locked start_log
rotate_logs_locked-Works h l w =
    rw
      (
        and_not_of l.file_open h.closes w.closes,
        and_not_of (exists (shift_files h l.disk 0)) (h.renames 0) (w.renames 0),
        w.opens,
      )
      refl

shifted_lem :
    (marker : Bytes) (k : ℕ) (d : Disk) (b c : Option Bytes)
    → b ≡ d 0
    → c ≡ (if k == 1 then none else if leb k 4 && ltb 1 k then d (k - 1) else d k)
    → (if k == 0 then some marker else if k == 1 then b else if k == 0 then none else c)
      ≡ shifted marker d k
shifted_lem marker zero d b c e f = refl
shifted_lem marker (suc zero) d b c e f = e
shifted_lem marker (suc (suc zero)) d b c e f = f
shifted_lem marker (suc (suc (suc zero))) d b c e f = f
shifted_lem marker (suc (suc (suc (suc zero)))) d b c e f = f
shifted_lem marker (suc (suc (suc (suc (suc k))))) d b c e f = ground arith

append_log-shifted :
    (h : Host) (k : ℕ) (d : Disk)
    → Works h
    → append_log h.marker (rename true 0 1 (shift_files h d)) k ≡ shifted h.marker d k
append_log-shifted h k d w =
    let files = λ (j : ℕ). shift_files-shifted h j d w in
    let renamed = λ (j : ℕ). rename_free 0 1 j (shift_files h d) (omega arith) (files 1) in
    ap (λ b. if k == 0 then some (content b ++ h.marker) else rename true 0 1 (shift_files h d) k)
      (renamed 0 ∙ refl)
    ∙ ap (λ b. if k == 0 then some h.marker else b) (renamed k)
    ∙ shifted_lem h.marker k d (shift_files h d 0) (shift_files h d k) (files 0) (files k)

-- A rotation that the system lets succeed, with any of the files there or missing: the log is new with
-- its marker, the four others have what the one before had, what the last had is gone, and no other file
-- changes.
pub rotate_logs_locked-shifted :
    (h : Host) (l : FileLogger) (k : ℕ)
    → Works h
    → ((rotate_logs_locked h l).0.disk k ≡ shifted h.marker l.disk k)
      × ((rotate_logs_locked h l).1 ≡ true)
      × ((rotate_logs_locked h l).0.file_open ≡ true)
rotate_logs_locked-shifted h l k w =
    let e = rotate_logs_locked-Works h l w in
    (
      ap (λ r. r.0.disk k) e ∙ append_log-shifted h k l.disk w,
      ap (λ r. r.1) e,
      ap (λ r. r.0.file_open) e,
    )
