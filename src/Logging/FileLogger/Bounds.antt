-- ===== src/Logging/FileLogger/Bounds.antt =====
-- internal/logging/logger.go: no log file outgrows its limit, and the channel keeps its bound.
use fuse_stream_mvp.Base.{
  ℕ, zero, suc, ◌+◌, ◌≤◌, ◌<◌, ◌≡◌, refl, ap, subst, inl, inr, Bool, not, true, false, Option, none,
  some, List, [], ◌∷◌, ◌++◌, arith, ◌==◌, leb, ltb, ◌&&◌, length, length-append, Option-cases,
  either, either_of,
}
use fuse_stream_mvp.Logging.FileLogger.{
  Bytes, Disk, max_log_file_size, log_channel_buffer, Host, FileLogger, set, rename, rotate_from,
  append_log, content, exists, shift_files, start_log, rotate_logs_locked, rotated, write_to_file,
  write, receive, Event, writes, receives, run_log,
}

-- Every file has at most `limit` bytes.
abbrev pub IsBounded : ℕ → Disk → Type 0
IsBounded limit d = (k : ℕ) → length (content (d k)) ≤ limit

set-IsBounded :
    (limit k : ℕ) (o : Option Bytes) (d : Disk)
    → length (content o) ≤ limit
    → IsBounded limit d
    → IsBounded limit (set k o d)
set-IsBounded limit k o d h v j =
    either (λ (e : Option Bytes). length (content e) ≤ limit) (j == k) h (v j)

rename-IsBounded :
    (limit : ℕ) (works : Bool) (i j : ℕ) (d : Disk)
    → IsBounded limit d
    → IsBounded limit (rename works i j d)
unfolding rename
rename-IsBounded limit works i j d v = either (IsBounded limit) works (go (d i) (v i)) v
  where
    go :
        (o : Option Bytes)
        → length (content o) ≤ limit
        → IsBounded limit (elim o [ none ↦ d | some b ↦ set j (some b) (set i none d) ])
    go none h = v
    go (some b) h =
        set-IsBounded limit j (some b) (set i none d) h
          (set-IsBounded limit i none d (omega arith) v)

rotate_from-IsBounded :
    (limit : ℕ) (renames : ℕ → Bool) (n : ℕ) (d : Disk)
    → IsBounded limit d
    → IsBounded limit (rotate_from renames n d)
unfolding rotate_from
rotate_from-IsBounded limit renames zero d v = v
rotate_from-IsBounded limit renames (suc n) d v =
    rotate_from-IsBounded limit renames n _
      (rename-IsBounded limit (renames (suc n)) (suc n) (suc (suc n)) d v)

shift_files-IsBounded :
    (limit : ℕ) (h : Host) (d : Disk) → IsBounded limit d → IsBounded limit (shift_files h d)
unfolding shift_files
shift_files-IsBounded limit h d v =
    rotate_from-IsBounded limit h.renames 3 _
      (either (IsBounded limit) h.removes (set-IsBounded limit 4 none d (omega arith) v) v)

pub append_log-IsBounded :
    (limit : ℕ) (b : Bytes) (d : Disk)
    → length (content (d 0)) + length b ≤ limit
    → IsBounded limit d
    → IsBounded limit (append_log b d)
append_log-IsBounded limit b d h v =
    set-IsBounded limit 0 (some (content (d 0) ++ b)) d
      (omega (arith, length-append (content (d 0)) b)) v

rename_log : (d : Disk) → rename true 0 1 d 0 ≡ none
unfolding rename
rename_log d = elim (Option-cases (d 0)) [
  | inl missing ↦ rw missing missing
  | inr (b, there) ↦ rw there refl
]

-- What the messages and the markers may have.
module _ (longest marker : ℕ) where
  abbrev pub limit : ℕ
  limit = max_log_file_size + longest + marker

  abbrev pub AllShort : List Bytes → Type 0
  AllShort [] = Unit {0}
  AllShort (b ∷ bs) = (length b ≤ longest) × AllShort bs

  -- `size` may leave out a marker, and an open file is below the size of a rotation.
  pub record IsSmall (l : FileLogger) : Type 0 where
    pub each : IsBounded limit l.disk
    pub held :
        l.file_open ≡ true
        → (length (content (l.disk 0)) ≤ l.size + marker) × (l.size < max_log_file_size)
    pub queued : AllShort l.log_chan
    pub room : length l.log_chan ≤ log_channel_buffer

  -- A rotation of a logger that holds no file, and what it leaves of the size.
  start_log-IsSmall :
      (h : Host) (l : FileLogger)
      → length h.marker ≤ marker
      → IsBounded limit l.disk
      → l.file_open ≡ false
      → AllShort l.log_chan
      → length l.log_chan ≤ log_channel_buffer
      → IsSmall (rotated (start_log h l))
  unfolding start_log
  start_log-IsSmall h l short v shut queued room =
      either (λ r. IsSmall (rotated r)) (exists (l.disk 0) && not (h.renames 0))
        (record { each = v; held = λ e. absurd (ground arith); queued = queued; room = room })
        (either (λ r. IsSmall (rotated r)) h.opens
          (let renamed = rename true 0 1 l.disk in
            let empty : length (content (renamed 0)) ≡ 0 =
              ap (λ o. length (content o)) (rename_log l.disk) in
            record {
              each =
                  append_log-IsBounded limit h.marker renamed (omega (arith, empty, short))
                    (rename-IsBounded limit true 0 1 l.disk v);
              held = λ e.
                  (omega (arith, length-append (content (renamed 0)) h.marker, empty), omega arith);
              queued = queued;
              room = room;
            })
          (record {
            each = rename-IsBounded limit true 0 1 l.disk v;
            held = λ e. absurd (ground arith);
            queued = queued;
            room = room;
          }))

  pub rotate_logs_locked-IsSmall :
      (h : Host) (l : FileLogger)
      → (l.file_open && not h.closes) ≡ false
      → length h.marker ≤ marker
      → IsBounded limit l.disk
      → AllShort l.log_chan
      → length l.log_chan ≤ log_channel_buffer
      → IsSmall (rotated (rotate_logs_locked h l))
  unfolding rotate_logs_locked
  rotate_logs_locked-IsSmall h l closes short v queued room = rw closes (
      start_log-IsSmall h (record l { disk = shift_files h l.disk; file_open = false }) short
        (shift_files-IsBounded limit h l.disk v) refl queued room)

  write_to_file-IsSmall :
      (h : Host) (b : Bytes) (l : FileLogger)
      → h.closes ≡ true
      → h.write_limit ≡ none
      → length h.marker ≤ marker
      → length b ≤ longest
      → IsSmall l
      → IsSmall (write_to_file h b l)
  unfolding write_to_file
  write_to_file-IsSmall h b l closes works short fits v =
      either_of IsSmall (not l.file_open) (λ shut. v)
        λ opened.
          let (log, below) = v.held (ground arith) in
          let l' : FileLogger = record l { disk = append_log b l.disk; size = l.size + length b } in
          let each = append_log-IsBounded limit b l.disk (omega arith) v.each in
          simp works (
            either_of IsSmall (leb max_log_file_size l'.size)
              (λ full. rotate_logs_locked-IsSmall h l' (ground arith) short each v.queued v.room)
              λ room. record {
                each = each;
                held = λ e. (omega (arith, length-append (content (l.disk 0)) b), ground arith);
                queued = v.queued;
                room = v.room;
              })

  AllShort-snoc :
      (bs : List Bytes) (b : Bytes) → AllShort bs → length b ≤ longest → AllShort (bs ++ b ∷ [])
  AllShort-snoc [] b all h = (h, _)
  AllShort-snoc (c ∷ bs) b all h = (all.0, AllShort-snoc bs b all.1 h)

  write-IsSmall :
      (b : Bytes) (l : FileLogger) → length b ≤ longest → IsSmall l → IsSmall (write b l)
  unfolding write
  write-IsSmall b l h v =
      either_of IsSmall (ltb (length l.log_chan) log_channel_buffer)
        (λ room. record {
          each = v.each;
          held = v.held;
          queued = AllShort-snoc l.log_chan b v.queued h;
          room = ground (arith, length-append l.log_chan (b ∷ []));
        })
        λ full. record { each = v.each; held = v.held; queued = v.queued; room = v.room }

  receive-IsSmall :
      (h : Host) (l : FileLogger)
      → h.closes ≡ true
      → h.write_limit ≡ none
      → length h.marker ≤ marker
      → IsSmall l
      → IsSmall (receive h l)
  unfolding receive
  receive-IsSmall h l closes works short v = go l.log_chan refl
    where
      go : (bs : List Bytes) → l.log_chan ≡ bs → IsSmall (receive h l)
      go [] e = simp (e, receive) v
      go (b ∷ bs) e =
          let (fits, rest) = subst AllShort e v.queued in
          simp (e, receive)
            (write_to_file-IsSmall h b (record l { log_chan = bs }) closes works short fits
              (record {
                each = v.each;
                held = v.held;
                queued = rest;
                room = omega (arith, ap length e, v.room);
              }))

  -- Messages and markers of a bounded length, writes that come through and a file that closes.
  abbrev pub AllFit : List Event → Type 0
  AllFit [] = Unit {0}
  AllFit (writes b ∷ es) = (length b ≤ longest) × AllFit es
  AllFit (receives h ∷ es) =
      (h.closes ≡ true) × (h.write_limit ≡ none) × (length h.marker ≤ marker) × AllFit es

  -- Whatever renames, removals and openings fail: with messages and markers of a bounded length, no log
  -- file ever has more than the size of a rotation, one message and one marker, and the channel has at
  -- most 1000 messages.
  pub run_log-IsSmall :
      (es : List Event) (l : FileLogger) → AllFit es → IsSmall l → IsSmall (run_log es l)
  unfolding run_log
  run_log-IsSmall [] l fit v = v
  run_log-IsSmall (writes b ∷ es) l (h, fit) v =
      run_log-IsSmall es (write b l) fit (write-IsSmall b l h v)
  run_log-IsSmall (receives h ∷ es) l (closes, works, short, fit) v =
      run_log-IsSmall es (receive h l) fit (receive-IsSmall h l closes works short v)
