-- ===== src/Strings/Texts.antt =====
-- libc/src/string: the functions on texts that end with a 0. A loop to the end of a text takes fuel,
-- and `none` says that it did not suffice.

pub mod Ends
use beeos.Prelude.{
  ℕ, zero, suc, ◌+◌, ◌-◌, Bool, true, false, ◌&&◌, ◌||◌, not, Option, none, some, ltb, ◌==◌,
  if◌then◌else◌,
}
use beeos.Prelude.Int.{ℤ, pos, negsuc, sub_ℕ}
use beeos.Strings.{poke}

unfoldable pub strlen_from : ℕ → ℕ → ℕ → (ℕ → ℕ) → Option ℕ
strlen_from zero s i mem = none
strlen_from (suc n) s i mem =
    let rest = strlen_from n s (i + 1) mem in if mem (s + i) == 0 then some i else rest

unfoldable pub strlen : ℕ → ℕ → (ℕ → ℕ) → Option ℕ
unfolding strlen_from
strlen fuel s mem = strlen_from fuel s 0 mem

unfoldable pub strcpy_from : ℕ → ℕ → ℕ → ℕ → (ℕ → ℕ) → Option (ℕ → ℕ)
strcpy_from zero dst src i mem = none
strcpy_from (suc n) dst src i mem =
    let rest = strcpy_from n dst src (i + 1) (poke (dst + i) (mem (src + i)) mem) in
    if mem (src + i) == 0 then some (poke (dst + i) 0 mem) else rest

unfoldable pub strcpy : ℕ → ℕ → ℕ → (ℕ → ℕ) → Option (ℕ → ℕ)
unfolding strcpy_from
strcpy fuel dst src mem = strcpy_from fuel dst src 0 mem

unfoldable pub strcat : ℕ → ℕ → ℕ → (ℕ → ℕ) → Option (ℕ → ℕ)
unfolding strlen_from strcpy
strcat fuel dst src mem = elim (strlen_from fuel dst 0 mem) [
  | none ↦ none
  | some i ↦ strcpy fuel (dst + i) src mem
]

-- The first loop of `strncpy` and that of `strncat`, with the rounds that are left: where it stops,
-- and the memory.
pub copy_some : ℕ → ℕ → ℕ → ℕ → (ℕ → ℕ) → ℕ × (ℕ → ℕ)
copy_some zero dst src i mem = (i, mem)
copy_some (suc n) dst src i mem =
    let rest = copy_some n dst src (i + 1) (poke (dst + i) (mem (src + i)) mem) in
    if mem (src + i) == 0 then (i, mem) else rest

-- `for ( ; i < n; i++) d[i] = c;`, with the rounds that are left.
unfoldable pub fill : ℕ → ℕ → ℕ → (ℕ → ℕ) → ℕ → ℕ
fill zero d c mem = mem
fill (suc n) d c mem = fill n (d + 1) c (poke d c mem)

pub memset : ℕ → ℕ → ℕ → (ℕ → ℕ) → ℕ → ℕ
unfolding fill
memset s c n mem = fill n s c mem

pub strncpy : ℕ → ℕ → ℕ → (ℕ → ℕ) → ℕ → ℕ
unfolding copy_some fill
strncpy dst src n mem = let (i, mem') = copy_some n dst src 0 mem in fill (n - i) (dst + i) 0 mem'

pub strncat : ℕ → ℕ → ℕ → ℕ → (ℕ → ℕ) → Option (ℕ → ℕ)
unfolding strlen copy_some
strncat fuel dst src n mem = elim (strlen fuel dst mem) [
  | none ↦ none
  | some dst_len ↦
      let (i, mem') = copy_some n (dst + dst_len) src 0 mem in
      some (poke (dst + dst_len + i) 0 mem')
]

-- The outer `none` is a lack of rounds, the inner one NULL.
pub strchr : ℕ → ℕ → ℕ → (ℕ → ℕ) → Option (Option ℕ)
strchr zero str c mem = none
strchr (suc n) str c mem =
    let rest = strchr n (str + 1) c mem in
    if (mem str == 0) || (mem str == c)
    then (if mem str == 0 then some none else some (some str))
    else rest

-- The difference of two bytes as values of the signed type `char`.
pub char_diff : ℕ → ℕ → ℤ
char_diff a b = sub_ℕ (a + (if ltb b 128 then 0 else 256)) (b + (if ltb a 128 then 0 else 256))

pub strcmp : ℕ → ℕ → ℕ → (ℕ → ℕ) → Option ℤ
unfolding char_diff
strcmp zero s1 s2 mem = none
strcmp (suc n) s1 s2 mem =
    let rest = strcmp n (s1 + 1) (s2 + 1) mem in
    if not (mem s1 == 0) && (mem s1 == mem s2) then rest else some (char_diff (mem s1) (mem s2))

-- The rounds of `strncmp` are counted by `n`, which wraps around once it is taken off at 0, and the
-- characters are equal then.
pub strncmp : ℕ → ℕ → ℕ → (ℕ → ℕ) → ℤ
unfolding char_diff
strncmp zero s1 s2 mem =
    if not (mem s1 == 0) && (mem s1 == mem s2) then char_diff (mem s1) (mem s2) else pos 0
strncmp (suc n) s1 s2 mem =
    let rest = strncmp n (s1 + 1) (s2 + 1) mem in
    if not (mem s1 == 0) && (mem s1 == mem s2) then rest else char_diff (mem s1) (mem s2)

pub memcmp : ℕ → ℕ → ℕ → (ℕ → ℕ) → ℤ
unfolding char_diff
memcmp zero s1 s2 mem = pos 0
memcmp (suc n) s1 s2 mem =
    let rest = memcmp n (s1 + 1) (s2 + 1) mem in
    if mem s1 == mem s2 then rest else char_diff (mem s1) (mem s2)
