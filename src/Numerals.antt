-- ===== src/Numerals.antt =====
-- Numbers read from text: libc/include/ctype.h, libc/src/stdlib/atoi.c, atol.c and abs.c. A string is
-- the list of its characters, without the 0 at its end.
use beeos.Prelude.{
  ℕ, ◌+◌, ◌-◌, ◌*◌, ◌%◌, ◌^◌, Bool, true, false, ◌&&◌, ◌||◌, List, [], ◌∷◌, leb, ◌==◌,
  if◌then◌else◌,
}
use beeos.Prelude.Int.{ℤ, pos, sub_ℕ, to_long}

-- The last character that the macro tests is the letter v.
unfoldable pub is_space : ℕ → Bool
is_space c =
    (c == b' ') || ((c == b'\n') || ((c == 12) || ((c == b'\r') || ((c == b'\t') || (c == b'v')))))

abbrev pub is_digit : ℕ → Bool
is_digit c = leb b'0' c && leb c b'9'

unfoldable pub skip_spaces : List ℕ → List ℕ
unfolding is_space
skip_spaces [] = []
skip_spaces (c ∷ s) = if is_space c then skip_spaces s else c ∷ s

-- Whether the number is negative, and what is behind the sign.
unfoldable pub take_sign : List ℕ → Bool × List ℕ
take_sign [] = (false, [])
take_sign (c ∷ s) =
    if c == b'+' then (false, s) else if c == b'-' then (true, s) else (false, c ∷ s)

-- The loop over the digits, in 32 bits.
unfoldable pub number_from : ℕ → List ℕ → ℕ
number_from num [] = num
number_from num (c ∷ s) =
    if is_digit c then number_from ((num * 8 + num * 2 + (c - b'0')) % 2 ^ 32) s else num

-- `sign` applied to the bits of the number.
unfoldable pub signed : Bool → ℕ → ℤ
signed true num = to_long (sub_ℕ 0 num)
signed false num = to_long (pos num)

unfoldable pub atoi : List ℕ → ℤ
unfolding skip_spaces take_sign number_from signed
atoi s = let (negative, ds) = take_sign (skip_spaces s) in signed negative (number_from 0 ds)

-- A `long` has the size of an `int`.
unfoldable pub atol : List ℕ → ℤ
unfolding skip_spaces take_sign number_from signed
atol s = let (negative, ds) = take_sign (skip_spaces s) in signed negative (number_from 0 ds)
