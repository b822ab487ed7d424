-- ===== src/Printf.antt =====
-- libc/src/stdio/vsnprintf.c: numbers and strings as text, with their width. What a function writes
-- to its buffer is the list of the bytes, and its result is their number.
pub mod Digits
pub mod RoundTrip
pub mod Widths
pub mod Formats
mod Tests
use beeos.Prelude.{
  ℕ, zero, suc, ◌+◌, ◌-◌, ◌/◌, ◌%◌, ◌^◌, Bool, true, false, ◌&&◌, not, Option, none, some, List, [],
  ◌∷◌, ◌++◌, leb, ltb, ◌==◌, if◌then◌else◌, length, take, replicate,
}
use beeos.Prelude.Int.{ℤ, pos, negsuc, neg_part, abs}

-- A digit as a character.
pub digit_char : Bool → ℕ → ℕ
digit_char uppercase r =
    if leb r 9 then r + b'0' else if uppercase then r - 10 + b'A' else r - 10 + b'a'

-- The first loop of `uimaxtoa`, on fuel.
unfoldable pub count_digits : ℕ → ℕ → ℕ → ℕ
count_digits zero n base = 0
count_digits (suc fuel) n base =
    let rest = count_digits fuel (n / base) base in if n == 0 then 0 else suc rest

-- The second loop, with the places that are left, from the last one to the first.
unfoldable pub write_digits : ℕ → ℕ → ℕ → Bool → List ℕ → List ℕ
unfolding digit_char
write_digits zero n base uppercase out = out
write_digits (suc places) n base uppercase out =
    let rest =
      write_digits places (n / base) base uppercase (digit_char uppercase (n % base) ∷ out) in
    if n == 0 then out else rest

-- An `unsigned long` has 32 bits, so no number has more digits.
abbrev pub max_digits : ℕ
max_digits = 32

-- `uimaxtoa` without a buffer.
unfoldable pub uimaxtoa_size : ℕ → ℕ → ℕ
uimaxtoa_size n base = if n == 0 then 1 else count_digits max_digits n base

-- `uimaxtoa` with one. A size of 0 is no limit; a smaller one keeps the last digits.
unfoldable pub uimaxtoa : ℕ → ℕ → Bool → ℕ → List ℕ
uimaxtoa n base uppercase size =
    let digits = count_digits max_digits n base in
    let places = if ltb 0 size && ltb size digits then size else digits in
    if n == 0 then b'0' ∷ [] else write_digits places n base uppercase []

-- `size - 1` as a `size_t`.
abbrev pub less_one : ℕ → ℕ
less_one size = (size + 2 ^ 32 - 1) % 2 ^ 32

pub imaxtoa_size : ℤ → ℕ → ℕ
unfolding uimaxtoa_size
imaxtoa_size (pos n) base = uimaxtoa_size n base
imaxtoa_size (negsuc n) base = uimaxtoa_size (suc n) base + 1

unfoldable pub imaxtoa : ℤ → ℕ → Bool → ℕ → List ℕ
unfolding uimaxtoa
imaxtoa (pos n) base uppercase size = uimaxtoa n base uppercase size
imaxtoa (negsuc n) base uppercase size =
    if size == 1 then b'-' ∷ [] else b'-' ∷ uimaxtoa (suc n) base uppercase (less_one size)

pub simaxtoa_size : ℤ → ℕ → ℕ
unfolding uimaxtoa_size
simaxtoa_size i base = uimaxtoa_size (abs i) base + 1

pub simaxtoa : ℤ → ℕ → Bool → ℕ → List ℕ
unfolding uimaxtoa
simaxtoa i base uppercase size =
    let sign = if neg_part i == 0 then b'+' else b'-' in
    if size == 1 then sign ∷ [] else sign ∷ uimaxtoa (abs i) base uppercase (less_one size)

-- The two tests that bring a width within `max`.
pub clamp : ℤ → ℕ → ℤ
clamp (pos w) m = if ltb 0 m && ltb m w then pos m else pos w
clamp (negsuc w) zero = negsuc w
clamp (negsuc w) (suc m) = if ltb m w then negsuc m else negsuc w

-- What the three functions that fill a field share: `print` is the conversion for a size.
pub filled : ℕ → (ℕ → List ℕ) → ℤ → ℕ → List ℕ
filled size_i print width filler =
    let w = abs width in
    let space = replicate (w - size_i) filler in
    if ltb w size_i
    then print w
    else (if neg_part width == 0 then space ++ print 0 else print 0 ++ space)

pub padded : ℕ → (ℕ → List ℕ) → ℤ → ℕ → ℤ → List ℕ
unfolding clamp filled
padded size_i print width filler (negsuc m) = []
padded size_i print width filler (pos m) = filled size_i print (clamp width m) filler

unfoldable pub uimaxtoa_fill : ℕ → ℕ → Bool → ℤ → ℕ → ℤ → List ℕ
unfolding padded uimaxtoa_size uimaxtoa
uimaxtoa_fill n base uppercase = padded (uimaxtoa_size n base) (uimaxtoa n base uppercase)

unfoldable pub imaxtoa_fill : ℤ → ℕ → Bool → ℤ → ℕ → ℤ → List ℕ
unfolding padded imaxtoa_size imaxtoa
imaxtoa_fill i base uppercase = padded (imaxtoa_size i base) (imaxtoa i base uppercase)

unfoldable pub simaxtoa_fill : ℤ → ℕ → Bool → ℤ → ℕ → ℤ → List ℕ
unfolding padded simaxtoa_size simaxtoa
simaxtoa_fill i base uppercase = padded (simaxtoa_size i base) (simaxtoa i base uppercase)

-- `strtostr_fill` once the width is within `max`; `none` where it writes outside the field: a 0 in
-- front of the buffer, or filler without end.
pub string_filled : List ℕ → ℤ → ℕ → ℕ → Option (List ℕ)
string_filled s width filler m =
    let w = abs width in
    let space = replicate (w - length s) filler in
    if not (w == 0) && ltb w (length s)
    then (if neg_part width == 0 then some (take w s) else none)
    else if (w == 0) && (ltb 0 m && ltb m (length s))
    then some (take m s)
    else if (w == 0) && (ltb 0 m && ltb (length s) m)
    then some s
    else if ltb w (length s)
    then none
    else if neg_part width == 0
    then some (space ++ s)
    else some (s ++ space)

unfoldable pub strtostr_fill : List ℕ → ℤ → ℕ → ℤ → Option (List ℕ)
unfolding clamp string_filled
strtostr_fill s width filler (negsuc m) = some []
strtostr_fill s width filler (pos m) = string_filled s (clamp width m) filler m
