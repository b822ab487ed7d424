-- ===== src/Strings.antt =====
-- The C library's copies of memory: libc/src/string/memcpy.c and memmove.c. The memory is the byte at
-- every address.
pub mod Copies
pub mod Texts
pub mod Tokens
mod Tests
use beeos.Prelude.{ℕ, zero, suc, ◌+◌, Bool, ltb, ◌==◌, if◌then◌else◌}

-- `p[...] = v`
abbrev pub poke : ℕ → ℕ → (ℕ → ℕ) → ℕ → ℕ
poke p v mem q = if q == p then v else mem q

-- `for (i = 0; i < n; i++) d[i] = s[i];`, with the rounds that are left.
unfoldable pub forwards : ℕ → ℕ → ℕ → ℕ → (ℕ → ℕ) → ℕ → ℕ
forwards zero i d s mem = mem
forwards (suc n) i d s mem = forwards n (i + 1) d s (poke (d + i) (mem (s + i)) mem)

-- `while (i-- > 0) d[i] = s[i];`
pub backwards : ℕ → ℕ → ℕ → (ℕ → ℕ) → ℕ → ℕ
backwards zero d s mem = mem
backwards (suc i) d s mem = backwards i d s (poke (d + i) (mem (s + i)) mem)

pub memcpy : ℕ → ℕ → ℕ → (ℕ → ℕ) → ℕ → ℕ
unfolding forwards
memcpy d s n mem = forwards n 0 d s mem

pub memmove : ℕ → ℕ → ℕ → (ℕ → ℕ) → ℕ → ℕ
unfolding forwards backwards
memmove d s n mem = if ltb d s then forwards n 0 d s mem else backwards n d s mem
