-- ===== src/Printf/RoundTrip.antt =====
-- libc/src/stdlib/atoi.c reads back what libc/src/stdio/vsnprintf.c writes of a signed number.
use beeos.Prelude.{
  ℕ, zero, suc, ◌+◌, ◌*◌, ◌/◌, ◌%◌, ◌^◌, ◌≤◌, ◌<◌, ◌≡◌, refl, inl, inr, true, false, ◌&&◌, List, [],
  ◌∷◌, arith, ltb, ◌==◌, All, Bool-cases,
}
use beeos.Prelude.Int.{ℤ, pos, negsuc, pos_part, neg_part}
use beeos.Numerals.{is_space, is_digit, skip_spaces, take_sign, number_from, signed, atoi}
use beeos.Printf.{digit_char, count_digits, write_digits, max_digits, uimaxtoa, imaxtoa, less_one}
use beeos.Printf.Digits.{ten, read-write_digits}

abbrev Digits : List ℕ → Type 0
Digits ds = All (λ c. is_digit c ≡ true) ds

write_digits-Digits :
    (places n : ℕ) (out : List ℕ) → Digits out → Digits (write_digits places n 10 false out)
unfolding write_digits digit_char
write_digits-Digits zero n out h = h
write_digits-Digits (suc places) n out h = elim (Bool-cases (n == 0)) [
  | inl z ↦ rw (z, write_digits) h
  | inr nz ↦
      rw (nz, write_digits)
        (write_digits-Digits places (n / 10) (digit_char false (n % 10) ∷ out) (ground arith, h))
]

-- Digits have no spaces and no sign in front.
front-Digits : (ds : List ℕ) → Digits ds → take_sign (skip_spaces ds) ≡ (false, ds)
unfolding skip_spaces take_sign is_space
front-Digits [] h = refl
front-Digits (c ∷ ds) (d, h) = ground arith

number_from-digit_char :
    (n : ℕ) (out : List ℕ)
    → n < 2 ^ 32
    → number_from (n / 10) (digit_char false (n % 10) ∷ out) ≡ number_from n out
unfolding number_from digit_char
number_from-digit_char n out h =
    let whole : (n / 10 * 8 + n / 10 * 2 + n % 10) % 2 ^ 32 ≡ n = omega arith in ground arith

number_from-write_digits :
    (n : ℕ)
    → n < 2 ^ 32
    → number_from 0 (write_digits (count_digits max_digits n 10) n 10 false []) ≡ n
unfolding number_from
number_from-write_digits n h =
    read-write_digits (λ k. number_from k) (ten refl) false (2 ^ 32) number_from-digit_char
      max_digits n [] h h

-- What `atoi` relies on in the digits of a number.
record Reads (n : ℕ) (ds : List ℕ) : Type 0 where
  all_digits : Digits ds
  value : number_from 0 ds ≡ n

count_digits-le : (fuel n base : ℕ) → count_digits fuel n base ≤ fuel
unfolding count_digits
count_digits-le zero n base = omega arith
count_digits-le (suc fuel) n base = ground (arith, count_digits-le fuel (n / base) base)

-- With no limit, or with one that no number reaches.
uimaxtoa-Reads :
    (n size : ℕ)
    → n < 2 ^ 32
    → (ltb 0 size && ltb size (count_digits max_digits n 10)) ≡ false
    → Reads n (uimaxtoa n 10 false size)
unfolding uimaxtoa number_from
uimaxtoa-Reads n size h free = elim (Bool-cases (n == 0)) [
  | inl z ↦ rw (z, uimaxtoa) (zero_Reads n (ground arith))
  | inr nz ↦
      rw (nz, free, uimaxtoa)
        (record {
          all_digits = write_digits-Digits (count_digits max_digits n 10) n [] tt;
          value = number_from-write_digits n h;
        })
]
  where
    zero_Reads : (n : ℕ) → n ≡ 0 → Reads n (b'0' ∷ [])
    zero_Reads n e = rw e (record { all_digits = (refl, tt); value = refl })

unsigned_free :
    (n : ℕ) → (ltb 0 (less_one 0) && ltb (less_one 0) (count_digits max_digits n 10)) ≡ false
unsigned_free n = let few = count_digits-le max_digits n 10 in ground arith

-- `atoi` of the text that `imaxtoa` writes in base 10, with no limit, is the number, for every `int`.
pub atoi-imaxtoa :
    (i : ℤ) → pos_part i < 2 ^ 31 → neg_part i ≤ 2 ^ 31 → atoi (imaxtoa i 10 false 0) ≡ i
unfolding atoi imaxtoa signed
atoi-imaxtoa (pos n) hi lo =
    let r = uimaxtoa-Reads n 0 (omega arith) refl in
    rw (front-Digits (uimaxtoa n 10 false 0) r.all_digits) (rw r.value (ground arith))
atoi-imaxtoa (negsuc n) hi lo =
    let r = uimaxtoa-Reads (suc n) (less_one 0) (omega arith) (unsigned_free (suc n)) in
    rw r.value (ground arith)
