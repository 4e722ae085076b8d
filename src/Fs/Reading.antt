-- ===== src/Fs/Reading.antt =====
-- internal/fs/fs_fuse.go: Read of a handle whose store is a RangeLRUStore.
use fuse_stream_mvp.Base.{
  ℕ, ◌-◌, ◌<◌, ◌≡◌, refl, inl, inr, ◌∙◌, ap, true, Option, none, some, List, [], arith, length,
  drop, min, length-take, length-drop, Bool-cases, leb, leb→le, leb-false→lt,
}
use fuse_stream_mvp.Base.Maps.{get, nat_eq}
use fuse_stream_mvp.Fs.{Fs, Handle}
use fuse_stream_mvp.Fs.Tree.{ReadError, eof, failed, bytes, reply_of, read}
use fuse_stream_mvp.Fetcher.RangeLru as RangeLru
use fuse_stream_mvp.Fetcher.RangeLru.{Store, Env, returns, panicked, out_of_fuel, read_at}
use fuse_stream_mvp.Fetcher.RangeLru.Chunks.{IsSound}
use fuse_stream_mvp.Fetcher.RangeLru.Complete.{IsQuiet, IsClean, read_at-IsFull}

-- How many bytes a read gave, and how Read sorts its error.
abbrev pub answer_of : RangeLru.Read → ℕ × Option ReadError
answer_of (returns out none) = (length out, none)
answer_of (returns out (some RangeLru.eof)) = (length out, some eof)
answer_of (returns out (some e)) = (length out, some failed)
answer_of panicked = (0, some failed)
answer_of out_of_fuel = (0, some failed)

read_at-behind :
    (fuel : ℕ) (env : Env) (s : Store) (len off : ℕ)
    → leb s.size off ≡ true
    → (read_at fuel env s len off).1 ≡ returns [] (some RangeLru.eof)
unfolding read_at
read_at-behind fuel env s len off behind = rw behind refl

-- Over a network that serves every range in the end, with no context done and nobody else at the
-- store, Read of an open handle of a RangeLRUStore answers with the number of bytes asked for or left in the file,
-- and with 0 behind its end.
pub read-IsFull :
    (file : List ℕ) (cs : ℕ) (env : Env) (s : Store) (fs : Fs) (fh : ℕ) (h : Handle)
    (len off fuel : ℕ)
    → IsQuiet file env
    → IsSound file cs s
    → IsClean s
    → get fh fs.handles ≡ some h
    → len < fuel
    → read (λ st. answer_of (read_at fuel env s len off).1) fh fs
      ≡ bytes (min len (length file - off))
unfolding read reply_of
read-IsFull file cs env s fs fh h len off fuel q v w e enough = elim (Bool-cases (leb s.size off)) [
  | inl behind ↦
      let none_left : bytes 0 ≡ bytes (min len (length file - off)) =
        ap bytes (omega (arith, leb→le s.size off behind, v.sized)) in
      rw (e, read) (rw (read_at-behind fuel env s len off behind) none_left)
  | inr inside ↦
      let full =
        read_at-IsFull file cs env q s len off fuel v w
          (omega (arith, leb-false→lt s.size off inside, v.sized)) enough in
      rw (e, read)
        (rw full (ap bytes (length-take len (drop off file) ∙ ap (min len) (length-drop off file))))
]
