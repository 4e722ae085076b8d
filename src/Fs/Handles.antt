-- ===== src/Fs/Handles.antt =====
-- internal/fs/fs_fuse.go: how many open handles a staged file has.
use fuse_stream_mvp.Base.{
  ℕ, suc, ◌+◌, ◌≤◌, ◌≡◌, Bool, true, false, none, some, [], ◌∷◌, arith, if◌then◌else◌, length,
  ==_iff,
}
use fuse_stream_mvp.Base.Maps.{Map, Text, text_beq, get, put, delete, nat_eq, IsMap, delete_absent}
use fuse_stream_mvp.Fs.{Handle}

-- The handles of the file `id`.
unfoldable pub count : Text → Map ℕ Handle → ℕ
count id [] = 0
count id ((fh, h) ∷ m) = let rest = count id m in if text_beq h.staged id then suc rest else rest

abbrev pub one_if : Bool → ℕ
one_if true = 1
one_if false = 0

pub count-put :
    (id : Text) (fh : ℕ) (h : Handle) (m : Map ℕ Handle)
    → get fh m ≡ none
    → count id (put fh h m) ≡ count id m + one_if (text_beq h.staged id)
unfolding count put get
count-put id fh h [] new = ground arith
count-put id fh h ((j, g) ∷ m) new = ground (arith, count-put id fh h m)

pub count-delete :
    (id : Text) (fh : ℕ) (h : Handle) (m : Map ℕ Handle)
    → IsMap m
    → get fh m ≡ some h
    → count id (delete fh m) + one_if (text_beq h.staged id) ≡ count id m
unfolding count delete get
count-delete id fh h [] u found = cc
count-delete id fh h ((j, g) ∷ m) u found =
    ground (arith, count-delete id fh h m u.1, delete_absent fh m, ==_iff j fh)

pub count-le-length : (id : Text) (m : Map ℕ Handle) → count id m ≤ length m
unfolding count
count-le-length id [] = omega arith
count-le-length id ((j, g) ∷ m) = ground (arith, count-le-length id m)
