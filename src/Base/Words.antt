-- ===== src/Base/Words.antt =====
-- Machine integers: an `int32` is its bit pattern below 2 ^ 32, an `int` or `int64` argument that
-- may be negative is an integer over the native numbers.
use fuse_stream_mvp.Base.{ℕ, ◌+◌, ◌%◌, Bool, true, ◌&&◌, ltb}

-- `negsuc n` is -(n + 1).
pub data ℤ : Type 0 where
  pos : ℕ → ℤ
  negsuc : ℕ → ℤ

-- The test `x <= 0`.
abbrev pub is_nonpos : ℤ → Bool
is_nonpos (pos n) = ltb n 1
is_nonpos (negsuc n) = true

-- The value of an integer that the code has tested to be positive.
abbrev pub to_ℕ : ℤ → ℕ
to_ℕ (pos n) = n
to_ℕ (negsuc n) = 0

abbrev pub u32 : ℕ → ℕ
u32 n = n % 4294967296

abbrev pub u64 : ℕ → ℕ
u64 n = n % 18446744073709551616

-- `atomic.AddInt32(&x, 1)` and `atomic.AddInt32(&x, -1)`, which wrap around.
abbrev pub inc32 : ℕ → ℕ
inc32 n = u32 (n + 1)

abbrev pub dec32 : ℕ → ℕ
dec32 n = u32 (n + 4294967295)

-- The test `x > 0` of a signed 32-bit integer.
abbrev pub is_pos32 : ℕ → Bool
is_pos32 n = ltb 0 n && ltb n 2147483648
