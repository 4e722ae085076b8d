-- ===== src/Base/Ints.antt =====
-- Go's `int` and `int64`: integers with their wrap-around written out, and the truncated quotient.
use fuse_stream_mvp.Base.{
  ℕ, zero, suc, ◌+◌, ◌-◌, ◌*◌, ◌/◌, ◌%◌, ◌<◌, ◌≡◌, refl, Bool, true, false, arith, ltb, leb,
  if◌then◌else◌,
}
use fuse_stream_mvp.Base.Words.{ℤ, pos, negsuc}

abbrev two_63 : ℕ
two_63 = 9223372036854775808

-- The value modulo 2 ^ 64 that an int64 can have.
unfoldable pub int64 : ℤ → ℤ
int64 (pos n) =
    let r = n % 18446744073709551616 in
    if ltb r two_63 then pos r else negsuc (18446744073709551615 - r)
int64 (negsuc n) =
    let r = n % 18446744073709551616 in
    if ltb r two_63 then negsuc r else pos (18446744073709551615 - r)

abbrev pub neg : ℕ → ℤ
neg zero = pos 0
neg (suc n) = negsuc n

-- a - b
abbrev pub minus : ℕ → ℕ → ℤ
minus a b = if leb b a then pos (a - b) else neg (b - a)

infix 60 ◌+ℤ◌
unfoldable pub ◌+ℤ◌ : ℤ → ℤ → ℤ
pos a +ℤ pos b = pos (a + b)
pos a +ℤ negsuc b = minus a (suc b)
negsuc a +ℤ pos b = minus b (suc a)
negsuc a +ℤ negsuc b = negsuc (suc (a + b))

infix 70 ◌*ℤ◌
unfoldable pub ◌*ℤ◌ : ℤ → ℤ → ℤ
pos a *ℤ pos b = pos (a * b)
pos a *ℤ negsuc b = neg (a * suc b)
negsuc a *ℤ pos b = neg (suc a * b)
negsuc a *ℤ negsuc b = pos (suc a * suc b)

-- The quotient of a division that is not by zero.
unfoldable pub quot : ℤ → ℤ → ℤ
quot (pos a) (pos b) = pos (a / b)
quot (pos a) (negsuc b) = neg (a / suc b)
quot (negsuc a) (pos b) = neg (suc a / b)
quot (negsuc a) (negsuc b) = pos (suc a / suc b)

abbrev pub is_zero : ℤ → Bool
is_zero (pos zero) = true
is_zero (pos (suc n)) = false
is_zero (negsuc n) = false

abbrev pub is_negative : ℤ → Bool
is_negative (pos n) = false
is_negative (negsuc n) = true

pub int64-pos : (n : ℕ) → n < 9223372036854775808 → int64 (pos n) ≡ pos n
unfolding int64
int64-pos n small = ground arith

pub plus-pos : (a b : ℕ) → (pos a +ℤ pos b) ≡ pos (a + b)
unfolding ◌+ℤ◌
plus-pos a b = refl

pub pred-pos : (n : ℕ) → 0 < n → (pos n +ℤ negsuc 0) ≡ pos (n - 1)
unfolding ◌+ℤ◌
pred-pos n some_n = ground arith

pub times-pos : (a b : ℕ) → (pos a *ℤ pos b) ≡ pos (a * b)
unfolding ◌*ℤ◌
times-pos a b = refl

pub quot-pos : (a b : ℕ) → quot (pos a) (pos b) ≡ pos (a / b)
unfolding quot
quot-pos a b = refl
