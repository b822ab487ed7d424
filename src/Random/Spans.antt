-- ===== src/Random/Spans.antt =====
-- kernel/src/driver/random.c: which bytes a read of random numbers writes.
use beeos.Prelude.{
  ℕ, zero, suc, ◌+◌, ◌-◌, ◌*◌, ◌/◌, ◌%◌, ◌^◌, ◌≤◌, ◌<◌, ◌≡◌, refl, ap, ◌∙◌, ◌⊎◌, inl, inr, Bool,
  true, false, Bool-cases, List, length, ◌==◌, if◌then◌else◌, arith,
}
use beeos.Prelude.Int.{pos}
use beeos.Strings.{poke}
use beeos.Random.{
  Random, rand_get, store_bytes, rand_unaligned, rand_words, rand_fill, random_init, initialized,
  random_read,
}

-- Outside the `n` bytes at `buf`.
abbrev pub Outside : ℕ → ℕ → ℕ → Type 0
Outside buf n q = (q < buf) ⊎ (buf + n ≤ q)

store_bytes-Outside :
    (buf r n : ℕ) (mem : ℕ → ℕ) (q : ℕ) → Outside buf n q → store_bytes buf r n mem q ≡ mem q
unfolding store_bytes
store_bytes-Outside buf r zero mem q out = refl
store_bytes-Outside buf r (suc n) mem q out =
    store_bytes-Outside (buf + 1) (r / 2 ^ 8) n (poke buf (r % 2 ^ 8) mem) q (ground (arith, out))
    ∙ ground (arith, out)

rand_unaligned-Outside :
    (buf n : ℕ) (s : Random × (ℕ → ℕ)) (q : ℕ)
    → Outside buf n q
    → (rand_unaligned buf n s).1 q ≡ s.1 q
unfolding rand_unaligned
rand_unaligned-Outside buf n (s, mem) q out = store_bytes-Outside buf (rand_get s).0 n mem q out

rand_words-Outside :
    (iter buf : ℕ) (s : Random × (ℕ → ℕ)) (q : ℕ)
    → Outside buf (4 * iter) q
    → (rand_words iter buf s).1 q ≡ s.1 q
unfolding rand_words
rand_words-Outside zero buf s q out = refl
rand_words-Outside (suc n) buf s q out =
    rand_words-Outside n (buf + 4) (rand_unaligned buf 4 s) q (ground (arith, out))
    ∙ rand_unaligned-Outside buf 4 s q (ground (arith, out))

-- From an aligned start the span is the buffer; from another one it is up to three bytes longer.
unfoldable pub span : ℕ → ℕ → ℕ
span buf siz = (4 - buf % 4) % 4 + siz

branch_same :
    (b : Bool) (s t : Random × (ℕ → ℕ)) (q : ℕ)
    → (b ≡ false → t.1 q ≡ s.1 q)
    → (if b then s else t).1 q ≡ s.1 q
branch_same true s t q other = refl
branch_same false s t q other = other refl

rand_fill-Outside :
    (buf siz : ℕ) (s : Random × (ℕ → ℕ)) (q : ℕ)
    → Outside buf (span buf siz) q
    → (rand_fill buf siz s).1 q ≡ s.1 q
unfolding rand_fill span
rand_fill-Outside buf siz s q out =
    let some_first : Outside buf ((4 - buf % 4) % 4) q = ground (arith, out) in
    let buf32 = (buf + 3) / 4 * 4 in
    let words = siz / 4 in
    let s1 = if buf % 4 == 0 then s else rand_unaligned buf (4 - buf % 4) s in
    let s2 = rand_words words buf32 s1 in
    let first =
      branch_same (buf % 4 == 0) s (rand_unaligned buf (4 - buf % 4) s) q
        (λ e. rand_unaligned-Outside buf (4 - buf % 4) s q (ground (arith, e, some_first))) in
    let middle = rand_words-Outside words buf32 s1 q (ground (arith, out)) in
    let last =
      branch_same (siz % 4 == 0) s2 (rand_unaligned (buf32 + 4 * words) (siz % 4) s2) q
        (λ e. rand_unaligned-Outside (buf32 + 4 * words) (siz % 4) s2 q (ground (arith, out))) in
    last ∙ middle ∙ first

initialized-zero :
    (ticks : List ℕ) (s : Random) → 0 < length ticks → (initialized ticks s).0 ≡ pos 0
unfolding initialized random_init
initialized-zero ticks s some_ticks =
    let seeded : (length ticks == 0) ≡ false = ground (arith, some_ticks) in
    let first : (random_init ticks s).0 ≡ pos 0 = rw seeded refl in
    elim (Bool-cases s.rand_initialized) [
      | inl ready ↦ ap (λ (b : Bool). (if b then (pos 0, s) else random_init ticks s).0) ready
      | inr fresh ↦
          ap (λ (b : Bool). (if b then (pos 0, s) else random_init ticks s).0) fresh ∙ first
    ]

-- Whatever the state of the generator, a `random_read` of `siz` bytes with a seed that is not empty
-- returns `siz`, and changes no byte in front of the buffer or behind the buffer's `siz` bytes, but for
-- up to three bytes behind them when the start of the buffer is not a multiple of 4.
pub random_read-span :
    (ticks : List ℕ) (buf siz : ℕ) (s : Random) (mem : ℕ → ℕ) (q : ℕ)
    → 0 < length ticks
    → Outside buf (span buf siz) q
    → let (n, (s', mem')) = random_read ticks buf siz s mem in (n ≡ pos siz) × (mem' q ≡ mem q)
unfolding random_read
random_read-span ticks buf siz s mem q some_ticks out =
    let ready = initialized-zero ticks s some_ticks in
    rw (random_read, ready) (refl, rand_fill-Outside buf siz ((initialized ticks s).1, mem) q out)
