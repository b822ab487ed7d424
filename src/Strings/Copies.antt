-- ===== src/Strings/Copies.antt =====
-- What libc/src/string/memcpy.c and memmove.c leave in the memory.
use native.Mathlib.Decide.{ℕ_discrete}
use beeos.Prelude.{
  ℕ, zero, suc, ◌+◌, ◌-◌, ◌≤◌, ◌≡◌, ap, ◌∙◌, ◌≢◌, ◌⊎◌, inl, inr, ◌&&◌, arith, leb, ltb,
  if◌then◌else◌, Bool-cases,
}
use beeos.Strings.{poke, forwards, backwards, memcpy, memmove}

-- The memory with the `n` bytes from `s` on copied to `d`, all at once.
abbrev pub copied : ℕ → ℕ → ℕ → (ℕ → ℕ) → ℕ → ℕ
copied d s n mem q = if leb d q && ltb q (d + n) then mem (s + (q - d)) else mem q

pub poke_other : (p v q : ℕ) (mem : ℕ → ℕ) → q ≢ p → poke p v mem q ≡ mem q
poke_other p v q mem ne = ground arith

-- The same for the bytes from the one with the index `i` on.
abbrev pub rest_copied : ℕ → ℕ → ℕ → ℕ → (ℕ → ℕ) → ℕ → ℕ
rest_copied d s i n mem q = if leb (d + i) q && ltb q (d + i + n) then mem (s + (q - d)) else mem q

rest_copied_first :
    (d s i n : ℕ) (mem : ℕ → ℕ) (q : ℕ)
    → (d ≤ s) ⊎ (s + (i + suc n) ≤ d)
    → rest_copied d s (i + 1) n (poke (d + i) (mem (s + i)) mem) q ≡ rest_copied d s i (suc n) mem q
rest_copied_first d s i n mem q apart = elim (ℕ_discrete q (d + i)) [
  | yes same ↦
      let src : s + (q - d) ≡ s + i = omega arith in let src' = ap (λ k. mem k) src in ground arith
  | no differ ↦ elim (Bool-cases (leb (d + i) q && ltb q (d + i + suc n))) [
    | inl inside ↦ let src : s + (q - d) ≢ d + i = ground arith in ground arith
    | inr outside ↦ ground arith
  ]
]

pub forwards-rest_copied :
    (n i d s : ℕ) (mem : ℕ → ℕ) (q : ℕ)
    → (d ≤ s) ⊎ (s + (i + n) ≤ d)
    → forwards n i d s mem q ≡ rest_copied d s i n mem q
unfolding forwards
forwards-rest_copied zero i d s mem q apart = ground arith
forwards-rest_copied (suc n) i d s mem q apart =
    forwards-rest_copied n (i + 1) d s (poke (d + i) (mem (s + i)) mem) q
      (elim apart [ inl a ↦ inl a | inr b ↦ inr (omega arith) ])
    ∙ rest_copied_first d s i n mem q apart

copied_last :
    (d s i : ℕ) (mem : ℕ → ℕ) (q : ℕ)
    → s ≤ d
    → copied d s i (poke (d + i) (mem (s + i)) mem) q ≡ copied d s (suc i) mem q
copied_last d s i mem q le = elim (ℕ_discrete q (d + i)) [
  | yes same ↦
      let src : s + (q - d) ≡ s + i = omega arith in let src' = ap (λ k. mem k) src in ground arith
  | no differ ↦ elim (Bool-cases (leb d q && ltb q (d + suc i))) [
    | inl inside ↦ let src : s + (q - d) ≢ d + i = ground arith in ground arith
    | inr outside ↦ ground arith
  ]
]

backwards-copied :
    (i d s : ℕ) (mem : ℕ → ℕ) (q : ℕ) → s ≤ d → backwards i d s mem q ≡ copied d s i mem q
unfolding backwards
backwards-copied zero d s mem q le = ground arith
backwards-copied (suc i) d s mem q le =
    backwards-copied i d s (poke (d + i) (mem (s + i)) mem) q le ∙ copied_last d s i mem q le

-- `memmove` leaves at the destination what the source held before, and every other byte as it was,
-- however the two overlap.
pub memmove-copied : (d s n : ℕ) (mem : ℕ → ℕ) (q : ℕ) → memmove d s n mem q ≡ copied d s n mem q
unfolding memmove
memmove-copied d s n mem q = elim (Bool-cases (ltb d s)) [
  | inl lt ↦
      rw (lt, memmove) (forwards-rest_copied n 0 d s mem q (inl (ground arith)) ∙ ground arith)
  | inr ge ↦ rw (ge, memmove) (backwards-copied n d s mem q (ground arith))
]

-- `memcpy` does the same where the destination begins at the source or in front of it, or where it
-- begins behind its end.
pub memcpy-copied :
    (d s n : ℕ) (mem : ℕ → ℕ) (q : ℕ)
    → (d ≤ s) ⊎ (s + n ≤ d)
    → memcpy d s n mem q ≡ copied d s n mem q
unfolding memcpy
memcpy-copied d s n mem q apart =
    forwards-rest_copied n 0 d s mem q (elim apart [ inl a ↦ inl a | inr b ↦ inr (omega arith) ])
    ∙ ground arith
