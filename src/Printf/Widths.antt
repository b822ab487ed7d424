-- ===== src/Printf/Widths.antt =====
-- libc/src/stdio/vsnprintf.c: the fields that `uimaxtoa_fill` and the two functions beside it fill.
use beeos.Prelude.{
  ℕ, zero, suc, ◌+◌, ◌-◌, ◌/◌, ◌%◌, ◌^◌, ◌≤◌, ◌<◌, ◌≡◌, refl, ap, sym, ◌∙◌, inl, inr, Bool, true,
  false, ◌&&◌, List, [], ◌∷◌, ◌++◌, append_assoc, arith, ltb, ◌==◌, if◌then◌else◌, length,
  length-append, length-replicate, replicate, Bool-cases,
}
use beeos.Prelude.Int.{ℤ, pos, negsuc, neg_part, abs}
use beeos.Printf.Digits.{IsBase, uimaxtoa-value}
use beeos.Printf.{
  digit_char, count_digits, write_digits, max_digits, uimaxtoa, uimaxtoa_size, clamp, filled,
  padded, uimaxtoa_fill,
}

-- A width within `max` stays, and one of 0 too.
clamp_within : (width : ℤ) (m : ℕ) → abs width ≤ m → clamp width m ≡ width
unfolding clamp
clamp_within (pos w) m h = ground arith
clamp_within (negsuc w) zero h = refl
clamp_within (negsuc w) (suc m) h = ground arith

-- With a width of 0 a number is written whole, whatever room there is.
pub padded-zero :
    (size_i : ℕ) (print : ℕ → List ℕ) (filler m : ℕ)
    → 0 < size_i
    → padded size_i print (pos 0) filler (pos m) ≡ print 0
unfolding padded filled
padded-zero size_i print filler m h =
    let e : (ltb 0 size_i) ≡ true = ground arith in
    rw (clamp_within (pos 0) m (omega arith)) (rw e refl)

padded-fits :
    (size_i : ℕ) (print : ℕ → List ℕ) (width : ℤ) (filler m : ℕ)
    → size_i ≤ abs width
    → abs width ≤ m
    → padded size_i print width filler (pos m) ≡ (
        if neg_part width == 0
        then replicate (abs width - size_i) filler ++ print 0
        else print 0 ++ replicate (abs width - size_i) filler)
unfolding padded filled
padded-fits size_i print width filler m fits within =
    let e : (ltb (abs width) size_i) ≡ false = ground arith in
    rw (clamp_within width m within) (rw e refl)

length-sides :
    (right : Bool) (xs ys : List ℕ)
    → length (if right then xs ++ ys else ys ++ xs) ≡ length xs + length ys
length-sides true xs ys = length-append xs ys
length-sides false xs ys = omega (arith, length-append ys xs)

-- A number that fits its width, within the room, stands at the right end of a field of exactly that
-- many bytes, or at the left end where the width is negative, and the filler beside it.
pub uimaxtoa_fill-fits :
    (n : ℕ) {b : ℕ} (uppercase : Bool) (width : ℤ) (filler m : ℕ)
    → IsBase b
    → n < 2 ^ 32
    → uimaxtoa_size n b ≤ abs width
    → abs width ≤ m
    → let digits = uimaxtoa n b uppercase 0 in
      let space = replicate (abs width - length digits) filler in
      (uimaxtoa_fill n b uppercase width filler (pos m)
        ≡ (if neg_part width == 0 then space ++ digits else digits ++ space))
      × (length (uimaxtoa_fill n b uppercase width filler (pos m)) ≡ abs width)
unfolding uimaxtoa_fill
uimaxtoa_fill-fits n {b} uppercase width filler m base h fits within =
    let size = (uimaxtoa-value n uppercase base h).1 in
    let shape =
      padded-fits (uimaxtoa_size n b) (uimaxtoa n b uppercase) width filler m fits within in
    (
      rw size shape,
      ap (λ l. length l) shape
          ∙ length-sides (neg_part width == 0) (replicate (abs width - uimaxtoa_size n b) filler)
              (uimaxtoa n b uppercase 0)
          ∙ omega (arith, length-replicate (abs width - uimaxtoa_size n b) filler),
    )

write_digits-append :
    (places n b : ℕ) (uppercase : Bool) (out : List ℕ)
    → write_digits places n b uppercase out ≡ write_digits places n b uppercase [] ++ out
unfolding write_digits
write_digits-append zero n b uppercase out = refl
write_digits-append (suc places) n b uppercase out = elim (Bool-cases (n == 0)) [
  | inl z ↦ rw (z, write_digits) refl
  | inr nz ↦
      let c = digit_char uppercase (n % b) in
      rw (nz, write_digits)
        (write_digits-append places (n / b) b uppercase (c ∷ out)
          ∙ sym (append_assoc (write_digits places (n / b) b uppercase []) (c ∷ []) out)
          ∙ ap (λ l. l ++ out) (sym (write_digits-append places (n / b) b uppercase (c ∷ []))))
]

-- With fewer places the same last digits are written.
write_digits-drop :
    (places more n b : ℕ) (uppercase : Bool) (out : List ℕ) {all : ℕ}
    → all ≡ places + more
    → (front : List ℕ) × (write_digits all n b uppercase out
        ≡ front ++ write_digits places n b uppercase out)
unfolding write_digits
write_digits-drop zero more n b uppercase out {all} e =
    (write_digits all n b uppercase [], write_digits-append all n b uppercase out)
write_digits-drop (suc places) more n b uppercase out {all = zero} e = absurd (omega arith)
write_digits-drop (suc places) more n b uppercase out {all = suc all} e =
    elim (Bool-cases (n == 0)) [
      | inl z ↦ rw (z, write_digits) ([], refl)
      | inr nz ↦
          rw (nz, write_digits)
            (write_digits-drop places more (n / b) b uppercase (digit_char uppercase (n % b) ∷ out)
              (omega arith))
    ]

-- Places that a number has digits for are all written.
length-write_digits_le :
    (places fuel n b : ℕ) (uppercase : Bool) (out : List ℕ)
    → places ≤ count_digits fuel n b
    → length (write_digits places n b uppercase out) ≡ places + length out
unfolding write_digits count_digits
length-write_digits_le zero fuel n b uppercase out h = omega arith
length-write_digits_le (suc places) zero n b uppercase out h = absurd (omega arith)
length-write_digits_le (suc places) (suc fuel) n b uppercase out h = elim (Bool-cases (n == 0)) [
  | inl z ↦ absurd (ground arith)
  | inr nz ↦
      let h' : places ≤ count_digits fuel (n / b) b = ground arith in
      rw (nz, write_digits)
        (length-write_digits_le places fuel (n / b) b uppercase (digit_char uppercase (n % b) ∷ out)
            h'
          ∙ omega arith)
]

-- `uimaxtoa` with a size below the number of digits.
uimaxtoa-narrow :
    (n b size : ℕ) (uppercase : Bool)
    → 0 < size
    → size < uimaxtoa_size n b
    → (front : List ℕ) × (uimaxtoa n b uppercase 0 ≡ front ++ uimaxtoa n b uppercase size)
      × (length (uimaxtoa n b uppercase size) ≡ size)
unfolding uimaxtoa uimaxtoa_size
uimaxtoa-narrow n b size uppercase some_size narrow = elim (Bool-cases (n == 0)) [
  | inl z ↦ absurd (ground arith)
  | inr nz ↦
      let digits = count_digits max_digits n b in
      let below : size < digits = ground arith in
      let limited : (ltb 0 size && ltb size digits) ≡ true = ground arith in
      let (front, e) =
        write_digits-drop size (digits - size) n b uppercase [] {all = digits} (omega arith) in
      let len = length-write_digits_le size max_digits n b uppercase [] (omega arith) in
      rw (nz, limited, uimaxtoa) (front, e, len ∙ omega arith)
]

-- A number that is longer than its width, within the room, loses its first digits: what is written is
-- the end of its text, as long as the width.
pub uimaxtoa_fill-narrow :
    (n b : ℕ) (uppercase : Bool) (width : ℤ) (filler m : ℕ)
    → 0 < abs width
    → abs width < uimaxtoa_size n b
    → abs width ≤ m
    → (front : List ℕ) × (uimaxtoa n b uppercase 0
        ≡ front ++ uimaxtoa_fill n b uppercase width filler (pos m))
      × (length (uimaxtoa_fill n b uppercase width filler (pos m)) ≡ abs width)
unfolding uimaxtoa_fill padded filled
uimaxtoa_fill-narrow n b uppercase width filler m some_width narrow within =
    let e : ltb (abs width) (uimaxtoa_size n b) ≡ true = ground arith in
    rw (clamp_within width m within)
      (rw e (uimaxtoa-narrow n b (abs width) uppercase some_width narrow))
