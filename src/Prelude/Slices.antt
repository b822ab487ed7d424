-- ===== src/Prelude/Slices.antt =====
-- Stretches of an array, and the array with a stretch replaced: what `memcpy` reads and writes.
use Prim.Native.Nat.{ℕ, zero, suc, ◌+◌, ◌≤◌}
use mathlib.Core.Path.{◌≡◌, refl, ap}
use mathlib.Core.List.{List, [], ◌∷◌, ◌++◌}
use native.Mathlib.Omega.{arith}
use beeos.Prelude.Lists.{length, take, drop}

module _ {ℓ} {A : Type ℓ} where
  -- The `n` elements at `i`.
  abbrev pub slice : ℕ → ℕ → List A → List A
  slice i n xs = take n (drop i xs)

  -- `ys` with the elements of `xs` written at `i`. A write out of range changes nothing.
  abbrev pub overwrite : ℕ → List A → List A → List A
  overwrite i xs [] = []
  overwrite (suc i) xs (y ∷ ys) = y ∷ overwrite i xs ys
  overwrite zero [] (y ∷ ys) = y ∷ ys
  overwrite zero (x ∷ xs) (y ∷ ys) = x ∷ overwrite zero xs ys

  pub take-nil : (n : ℕ) → take {A = A} n [] ≡ []
  take-nil zero = refl
  take-nil (suc n) = refl

  pub drop-nil : (n : ℕ) → drop {A = A} n [] ≡ []
  drop-nil zero = refl
  drop-nil (suc n) = refl

  pub length-overwrite : (i : ℕ) (xs ys : List A) → length (overwrite i xs ys) ≡ length ys
  length-overwrite i xs [] = refl
  length-overwrite (suc i) xs (y ∷ ys) = ap suc (length-overwrite i xs ys)
  length-overwrite zero [] (y ∷ ys) = refl
  length-overwrite zero (x ∷ xs) (y ∷ ys) = ap suc (length-overwrite zero xs ys)

  -- Two neighbouring stretches are one.
  pub slice-append :
      (i m j n k : ℕ) (xs : List A)
      → j ≡ i + m
      → k ≡ m + n
      → slice i m xs ++ slice j n xs ≡ slice i k xs
  slice-append i m j n k [] e f = simp (drop-nil, take-nil)
  slice-append zero zero j n k (x ∷ xs) e f =
      let e' : j ≡ 0 = omega arith in let f' : k ≡ n = omega arith in rw (e', f')
  slice-append zero (suc m) zero n k (x ∷ xs) e f = absurd (omega arith)
  slice-append zero (suc m) (suc j) n zero (x ∷ xs) e f = absurd (omega arith)
  slice-append zero (suc m) (suc j) n (suc k) (x ∷ xs) e f =
      ap (λ t. x ∷ t) (slice-append zero m j n k xs (omega arith) (omega arith))
  slice-append (suc i) m zero n k (x ∷ xs) e f = absurd (omega arith)
  slice-append (suc i) m (suc j) n k (x ∷ xs) e f = slice-append i m j n k xs (omega arith) f

  -- A stretch in front of what is written, what is written, and what lies behind it.
  pub slice-overwrite_before :
      (i n j : ℕ) (xs ys : List A) → i + n ≤ j → slice i n (overwrite j xs ys) ≡ slice i n ys
  slice-overwrite_before i n j xs [] h = refl
  slice-overwrite_before zero zero j xs (y ∷ ys) h = refl
  slice-overwrite_before zero (suc n) zero xs (y ∷ ys) h = absurd (omega arith)
  slice-overwrite_before zero (suc n) (suc j) xs (y ∷ ys) h =
      ap (λ t. y ∷ t) (slice-overwrite_before zero n j xs ys (omega arith))
  slice-overwrite_before (suc i) n zero xs (y ∷ ys) h = absurd (omega arith)
  slice-overwrite_before (suc i) n (suc j) xs (y ∷ ys) h =
      slice-overwrite_before i n j xs ys (omega arith)

  pub slice-overwrite_self :
      (j : ℕ) (xs ys : List A)
      → j + length xs ≤ length ys
      → slice j (length xs) (overwrite j xs ys) ≡ xs
  slice-overwrite_self j [] ys h = refl
  slice-overwrite_self j (x ∷ xs) [] h = absurd (omega arith)
  slice-overwrite_self zero (x ∷ xs) (y ∷ ys) h =
      ap (λ t. x ∷ t) (slice-overwrite_self zero xs ys (omega arith))
  slice-overwrite_self (suc j) (x ∷ xs) (y ∷ ys) h =
      slice-overwrite_self j (x ∷ xs) ys (omega arith)

  pub drop-overwrite :
      (i j : ℕ) (xs ys : List A) → j + length xs ≤ i → drop i (overwrite j xs ys) ≡ drop i ys
  drop-overwrite i j xs [] h = refl
  drop-overwrite zero zero [] (y ∷ ys) h = refl
  drop-overwrite zero zero (x ∷ xs) (y ∷ ys) h = absurd (omega arith)
  drop-overwrite zero (suc j) xs (y ∷ ys) h = absurd (omega arith)
  drop-overwrite (suc i) zero [] (y ∷ ys) h = refl
  drop-overwrite (suc i) zero (x ∷ xs) (y ∷ ys) h = drop-overwrite i zero xs ys (omega arith)
  drop-overwrite (suc i) (suc j) xs (y ∷ ys) h = drop-overwrite i j xs ys (omega arith)
