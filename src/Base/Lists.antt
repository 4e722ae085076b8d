-- ===== src/Base/Lists.antt =====
-- Lists measured, cut and indexed by native numbers, under the library's names.
use Prim.Native.Nat.{ℕ, zero, suc, ◌+◌, ◌-◌, ◌≤◌, min}
use mathlib.Core.Path.{◌≡◌, refl, ap}
use mathlib.Core.List.{List, [], ◌∷◌, ◌++◌}
use mathlib.Core.Logic.{◌≢◌}
use mathlib.Core.Bool.{Bool, false, ◌||◌}
use native.Mathlib.Omega.{arith}
use fuse_stream_mvp.Base.Tests.{◌==◌, if◌then◌else◌}

module _ {ℓ} {A : Type ℓ} where
  abbrev pub length : List A → ℕ
  length [] = 0
  length (x ∷ xs) = suc (length xs)

  unfoldable pub drop : ℕ → List A → List A
  drop zero xs = xs
  drop (suc n) [] = []
  drop (suc n) (x ∷ xs) = drop n xs

  unfoldable pub take : ℕ → List A → List A
  take zero xs = []
  take (suc n) [] = []
  take (suc n) (x ∷ xs) = x ∷ take n xs

  pub length-append : (xs ys : List A) → length (xs ++ ys) ≡ length xs + length ys
  length-append [] ys = omega arith
  length-append (x ∷ xs) ys = omega (arith, length-append xs ys)

  pub length-take : (n : ℕ) (xs : List A) → length (take n xs) ≡ min n (length xs)
  unfolding take
  length-take zero xs = omega arith
  length-take (suc n) [] = omega arith
  length-take (suc n) (x ∷ xs) = omega (arith, length-take n xs)

  pub length-drop : (n : ℕ) (xs : List A) → length (drop n xs) ≡ length xs - n
  unfolding drop
  length-drop zero xs = omega arith
  length-drop (suc n) [] = omega arith
  length-drop (suc n) (x ∷ xs) = omega (arith, length-drop n xs)

  pub take_of_length-le : (n : ℕ) (bytes : List A) → length bytes ≤ n → take n bytes ≡ bytes
  unfolding take
  take_of_length-le zero [] short = refl
  take_of_length-le (suc n) [] short = refl
  take_of_length-le zero (b ∷ bytes) short = absurd (omega arith)
  take_of_length-le (suc n) (b ∷ bytes) short =
      ground (arith, take_of_length-le n bytes (omega arith))

  pub drop_of_length-le : (n : ℕ) (xs : List A) → length xs ≤ n → drop n xs ≡ []
  unfolding drop
  drop_of_length-le zero [] h = refl
  drop_of_length-le zero (x ∷ xs) h = absurd (omega arith)
  drop_of_length-le (suc n) [] h = refl
  drop_of_length-le (suc n) (x ∷ xs) h = drop_of_length-le n xs (omega arith)

  -- Numbers as variables with an equation, since a sum of two variables is stuck.
  pub drop-drop : (m n k : ℕ) (xs : List A) → m + n ≡ k → drop m (drop n xs) ≡ drop k xs
  unfolding drop
  drop-drop m zero k xs e = let e' : m ≡ k = omega arith in ap (λ i. drop i xs) e'
  drop-drop m (suc n) zero xs e = absurd (omega arith)
  drop-drop zero (suc n) (suc k) [] e = refl
  drop-drop (suc m) (suc n) (suc k) [] e = refl
  drop-drop m (suc n) (suc k) (x ∷ xs) e = drop-drop m n k xs (omega arith)

  pub take-take : (m n : ℕ) (xs : List A) → m ≤ n → take m (take n xs) ≡ take m xs
  unfolding take
  take-take zero n xs h = refl
  take-take (suc m) zero xs h = absurd (omega arith)
  take-take (suc m) (suc n) [] h = refl
  take-take (suc m) (suc n) (x ∷ xs) h = ap (◌∷◌ x) (take-take m n xs (omega arith))

  -- Dropping from a prefix leaves a prefix of what is left.
  pub drop-take : (m n k : ℕ) (xs : List A) → m + k ≡ n → drop m (take n xs) ≡ take k (drop m xs)
  unfolding take drop
  drop-take zero n k xs e = let e' : n ≡ k = omega arith in ap (λ i. take i xs) e'
  drop-take (suc m) zero k xs e = absurd (omega arith)
  drop-take (suc m) (suc n) zero [] e = refl
  drop-take (suc m) (suc n) (suc k) [] e = refl
  drop-take (suc m) (suc n) k (x ∷ xs) e = drop-take m n k xs (omega arith)

  -- A prefix taken in two parts.
  pub take-append-take-drop :
      (m n k : ℕ) (xs : List A) → m + n ≡ k → take m xs ++ take n (drop m xs) ≡ take k xs
  unfolding take drop
  take-append-take-drop zero n k xs e = let e' : n ≡ k = omega arith in ap (λ i. take i xs) e'
  take-append-take-drop (suc m) n zero xs e = absurd (omega arith)
  take-append-take-drop (suc m) zero (suc k) [] e = refl
  take-append-take-drop (suc m) (suc n) (suc k) [] e = refl
  take-append-take-drop (suc m) n (suc k) (x ∷ xs) e =
      ap (◌∷◌ x) (take-append-take-drop m n k xs (omega arith))

-- Sets of numbers as lists.
unfoldable pub contains : ℕ → List ℕ → Bool
contains k [] = false
contains k (x ∷ xs) = x == k || contains k xs

-- Drops the first occurrence: `append(l[:i], l[i+1:]...)` at the first match.
unfoldable pub erase : ℕ → List ℕ → List ℕ
erase k [] = []
erase k (x ∷ xs) = if x == k then xs else x ∷ erase k xs

abbrev pub IsDistinct : List ℕ → Type 0
IsDistinct [] = Unit {0}
IsDistinct (x ∷ xs) = (contains x xs ≡ false) × IsDistinct xs

pub contains-append :
    (k : ℕ) (xs ys : List ℕ) → contains k (xs ++ ys) ≡ (contains k xs || contains k ys)
unfolding contains
contains-append k [] ys = refl
contains-append k (x ∷ xs) ys = ground (arith, contains-append k xs ys)

pub contains-erase_ne : (k j : ℕ) (xs : List ℕ) → k ≢ j → contains k (erase j xs) ≡ contains k xs
unfolding contains erase
contains-erase_ne k j [] h = refl
contains-erase_ne k j (x ∷ xs) h = ground (arith, contains-erase_ne k j xs h)

pub contains-erase_self : (k : ℕ) (xs : List ℕ) → IsDistinct xs → contains k (erase k xs) ≡ false
unfolding contains erase
contains-erase_self k [] h = refl
contains-erase_self k (x ∷ xs) h = ground (arith, contains-erase_self k xs h.1)

pub erase_absent : (k : ℕ) (xs : List ℕ) → contains k xs ≡ false → erase k xs ≡ xs
unfolding contains erase
erase_absent k [] h = refl
erase_absent k (x ∷ xs) h = ground (arith, erase_absent k xs)

pub length-erase-le : (k : ℕ) (xs : List ℕ) → length (erase k xs) ≤ length xs
unfolding erase
length-erase-le k [] = omega arith
length-erase-le k (x ∷ xs) = ground (arith, length-erase-le k xs)

pub erase-IsDistinct : (k : ℕ) (xs : List ℕ) → IsDistinct xs → IsDistinct (erase k xs)
unfolding contains erase
erase-IsDistinct k [] h = tt
erase-IsDistinct k (x ∷ xs) h = ground (arith, erase-IsDistinct k xs h.1, contains-erase_ne x k xs)

pub snoc-IsDistinct :
    (k : ℕ) (xs : List ℕ) → IsDistinct xs → contains k xs ≡ false → IsDistinct (xs ++ k ∷ [])
unfolding contains
snoc-IsDistinct k [] h n = (refl, tt)
snoc-IsDistinct k (x ∷ xs) h n =
    ground (arith, snoc-IsDistinct k xs h.1, contains-append x xs (k ∷ []))
