-- ===== src/Printf/Digits.antt =====
-- The digits that libc/src/stdio/vsnprintf.c writes, and what libc/src/stdlib/atoi.c reads from them.
use beeos.Prelude.{
  ℕ, zero, suc, ◌+◌, ◌-◌, ◌*◌, ◌/◌, ◌%◌, ◌^◌, ◌≤◌, ◌<◌, ◌≡◌, refl, ap, ◌∙◌, inl, inr, Bool, List,
  [], ◌∷◌, arith, leb, ◌==◌, if◌then◌else◌, length, Bool-cases,
}
use beeos.Printf.{digit_char, count_digits, write_digits, max_digits, uimaxtoa, uimaxtoa_size}

-- The bases of the conversions.
pub data IsBase : ℕ → Type 0 where
  two : {b : ℕ} → b ≡ 2 → IsBase b
  eight : {b : ℕ} → b ≡ 8 → IsBase b
  ten : {b : ℕ} → b ≡ 10 → IsBase b
  sixteen : {b : ℕ} → b ≡ 16 → IsBase b

halved : (fuel n : ℕ) → n < 2 ^ suc fuel → n / 2 < 2 ^ fuel
halved fuel n h = omega arith

div-lt : {b : ℕ} → IsBase b → (n k : ℕ) → n / 2 < k → (n / b < k) × (n / b ≤ n)
div-lt (two e) n k h = rw e (omega arith)
div-lt (eight e) n k h = rw e (omega arith)
div-lt (ten e) n k h = rw e (omega arith)
div-lt (sixteen e) n k h = rw e (omega arith)

-- A way to read digits from the front gets back what was written.
pub read-write_digits :
    (read : ℕ → List ℕ → ℕ) {b : ℕ}
    → IsBase b
    → (uppercase : Bool) (bound : ℕ)
    → ((n : ℕ) (out : List ℕ)
        → n < bound
        → read (n / b) (digit_char uppercase (n % b) ∷ out) ≡ read n out)
    → (fuel n : ℕ) (out : List ℕ) → n < 2 ^ fuel
    → n < bound
    → read 0 (write_digits (count_digits fuel n b) n b uppercase out) ≡ read n out
unfolding count_digits write_digits
read-write_digits read {b} base uppercase bound step zero n out h k =
    ap (λ m. read m out) (omega arith)
read-write_digits read {b} base uppercase bound step (suc fuel) n out h k =
    elim (Bool-cases (n == 0)) [
      | inl z ↦ rw z (ap (λ m. read m out) (ground arith))
      | inr nz ↦
          let (below, le) = div-lt base n (2 ^ fuel) (halved fuel n h) in
          let more =
            read-write_digits read base uppercase bound step fuel (n / b)
              (digit_char uppercase (n % b) ∷ out) below (omega arith) in
          rw nz (rw (nz, write_digits) (more ∙ step n out k))
    ]

-- The value of digits of any base.
pub char_value : ℕ → ℕ
char_value c = if leb c b'9' then c - b'0' else if leb c b'F' then c - b'A' + 10 else c - b'a' + 10

pub value_from : ℕ → ℕ → List ℕ → ℕ
value_from b acc [] = acc
value_from b acc (c ∷ s) = value_from b (acc * b + char_value c) s

value-digit_char :
    {b : ℕ}
    → IsBase b
    → (uppercase : Bool) (n : ℕ) → n / b * b + char_value (digit_char uppercase (n % b)) ≡ n
unfolding char_value digit_char
value-digit_char (two e) uppercase n = rw e (ground arith)
value-digit_char (eight e) uppercase n = rw e (ground arith)
value-digit_char (ten e) uppercase n = rw e (ground arith)
value-digit_char (sixteen e) uppercase n = rw e (ground arith)

length-write_digits :
    {b : ℕ}
    → IsBase b
    → (uppercase : Bool) (fuel n : ℕ) (out : List ℕ)
    → length (write_digits (count_digits fuel n b) n b uppercase out)
      ≡ count_digits fuel n b + length out
unfolding count_digits write_digits
length-write_digits base uppercase zero n out = omega arith
length-write_digits {b} base uppercase (suc fuel) n out = elim (Bool-cases (n == 0)) [
  | inl z ↦ rw z (omega arith)
  | inr nz ↦
      let more =
        length-write_digits base uppercase fuel (n / b) (digit_char uppercase (n % b) ∷ out) in
      rw nz (rw (nz, write_digits) (omega arith))
]

-- Without a limit `uimaxtoa` writes the digits of the number in each of the four bases, as many as
-- it counts without a buffer.
pub uimaxtoa-value :
    (n : ℕ) {b : ℕ} (uppercase : Bool)
    → IsBase b
    → n < 2 ^ 32
    → (value_from b 0 (uimaxtoa n b uppercase 0) ≡ n)
      × (length (uimaxtoa n b uppercase 0) ≡ uimaxtoa_size n b)
unfolding uimaxtoa uimaxtoa_size value_from char_value
uimaxtoa-value n {b} uppercase base h = elim (Bool-cases (n == 0)) [
  | inl z ↦ rw (z, uimaxtoa) (ground arith, refl)
  | inr nz ↦
      rw (nz, uimaxtoa)
        (
          read-write_digits (value_from b) base uppercase (2 ^ 32)
              (λ m out lt. ap (λ k. value_from b k out) (value-digit_char base uppercase m))
              max_digits n [] h h,
          length-write_digits base uppercase max_digits n [] ∙ omega arith,
        )
]
