-- ===== src/Ui/Jobs/Counting.antt =====
-- ui/app_common.go: how many pages GetJobsPaginated counts.
use native.Mathlib.Nat.{div-add-mod', div-le_self, mod-lt, mul-le-mul_right}
use fuse_stream_mvp.Base.{
  ℕ, zero, suc, ◌+◌, ◌-◌, ◌*◌, ◌/◌, ◌≤◌, ◌<◌, ◌≡◌, refl, false, arith, if◌then◌else◌, ◌==◌,
}
use fuse_stream_mvp.Base.Ints.{int64-pos, plus-pos, pred-pos, quot-pos, is_zero}
use fuse_stream_mvp.Base.Words.{pos}
use fuse_stream_mvp.Ui.Jobs.{total_pages}

abbrev pub int64_limit : ℕ
int64_limit = 9223372036854775808

-- How many pages of this size n jobs have, at least one.
abbrev pub page_count : ℕ → ℕ → ℕ
page_count n size = let q = (n + size - 1) / size in if q == 0 then 1 else q

total_pages_pos :
    (q : ℕ) → (if is_zero (pos q) then pos 1 else pos q) ≡ pos (if q == 0 then 1 else q)
total_pages_pos zero = refl
total_pages_pos (suc q) = ground arith

pub total_pages_of :
    (n size : ℕ)
    → 0 < size
    → n + size < int64_limit
    → total_pages (pos n) (pos size) ≡ pos (page_count n size)
unfolding total_pages
total_pages_of n size some_size small =
    let q = (n + size - 1) / size in
    let bound : q < int64_limit = omega (arith, div-le_self (n + size - 1) size) in
    rw
      (
        plus-pos n size,
        int64-pos (n + size) small,
        pred-pos (n + size) (omega arith),
        int64-pos (n + size - 1) (omega arith),
        quot-pos (n + size - 1) size,
        int64-pos q bound,
      )
      (total_pages_pos q)

pub page_count-covers : (n size : ℕ) → 0 < size → n ≤ page_count n size * size
page_count-covers n size some_size =
    let m = n + size - 1 in
    let q = m / size in
    let more : q ≤ page_count n size = ground arith in
    omega (
      arith,
      div-add-mod' m size,
      mod-lt m some_size,
      mul-le-mul_right {m = q} {n = page_count n size} size more,
    )

pub page_start-lt :
    (n size k : ℕ)
    → 0 < size
    → n + size < int64_limit
    → k < page_count n size
    → k * size < int64_limit
page_start-lt n size k some_size small h =
    let m = n + size - 1 in
    let q = m / size in
    let more : k ≤ q = ground arith in
    omega
      (arith, div-add-mod' m size, mod-lt m some_size, mul-le-mul_right {m = k} {n = q} size more)

pub is_zero-pos : (n : ℕ) → 0 < n → is_zero (pos n) ≡ false
is_zero-pos zero h = absurd (omega arith)
is_zero-pos (suc n) h = refl
