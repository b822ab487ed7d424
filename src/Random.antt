-- ===== src/Random.antt =====
-- kernel/src/driver/random.c: the generator of random numbers and reads of it. `z` is the array of its
-- four words, and the memory is the byte at every address.
pub mod Spans
mod Tests
use Prim.Native.Nat.{bit_and, bit_xor}
use beeos.Prelude.{
  ℕ, zero, suc, ◌+◌, ◌-◌, ◌*◌, ◌/◌, ◌%◌, ◌^◌, Bool, true, false, List, [], ◌∷◌, length, get_or, ltb,
  leb, ◌==◌, if◌then◌else◌,
}
use beeos.Prelude.Int.{ℤ, pos, negsuc}
use beeos.Strings.{poke}
use beeos.Htable.{u32}

pub record Random : Type 0 where
  pub z : ℕ → ℕ
  pub rand_initialized : Bool

abbrev pub set_z : ℕ → ℕ → Random → Random
set_z i v s = record s { z = λ j. if j == i then v else s.z j }

-- One of the four lines pairs: `up`, `down` and `left` are the shifts, `mask` is the mask.
pub stir : ℕ → ℕ → ℕ → ℕ → ℕ → Random → Random
stir i up down mask left s =
    let r = bit_xor (u32 (s.z i * 2 ^ up)) (s.z i) / 2 ^ down in
    set_z i (bit_xor (u32 (bit_and (s.z i) mask * 2 ^ left)) r) s

pub rand_get : Random → ℕ × Random
unfolding stir
rand_get s =
    let s1 = stir 0 6 13 4294967294 18 s in
    let s2 = stir 1 2 27 4294967288 2 s1 in
    let s3 = stir 2 13 21 4294967280 7 s2 in
    let s4 = stir 3 3 12 4294967168 13 s3 in
    (bit_xor (bit_xor (bit_xor (s4.z 0) (s4.z 1)) (s4.z 2)) (s4.z 3), s4)

-- The loop of `random_init`, with the rounds that are left; `dst` is the bytes of `z`, low ones first.
pub seed_loop : ℕ → ℕ → ℕ → List ℕ → Random → Random
seed_loop zero i j seed s = s
seed_loop (suc n) i j seed s =
    let w = i / 4 in
    let s1 = set_z w (bit_xor (s.z w) (get_or seed j 0 * 2 ^ (8 * (i % 4)))) s in
    let i' = if leb 16 (i + 1) then 0 else i + 1 in
    let j' = if leb (length seed) (j + 1) then 0 else j + 1 in seed_loop n i' j' seed s1

-- The bytes of `seed` are its `seed_siz` ones.
pub random_init : List ℕ → Random → ℤ × Random
unfolding seed_loop
random_init seed s =
    let rounds = if ltb (length seed) 16 then 16 else length seed in
    let s1 : Random = record (seed_loop rounds 0 0 seed s) { rand_initialized = true } in
    if length seed == 0 then (negsuc 0, s) else (pos 0, s1)

-- The low `n` bytes of `r` at `buf`, the lowest first.
pub store_bytes : ℕ → ℕ → ℕ → (ℕ → ℕ) → ℕ → ℕ
store_bytes buf r zero mem = mem
store_bytes buf r (suc n) mem = store_bytes (buf + 1) (r / 2 ^ 8) n (poke buf (r % 2 ^ 8) mem)

pub rand_unaligned : ℕ → ℕ → Random × (ℕ → ℕ) → Random × (ℕ → ℕ)
unfolding rand_get store_bytes
rand_unaligned buf n (s, mem) = let (r, s') = rand_get s in (s', store_bytes buf r n mem)

-- `for (i = 0; i < iter; i++) buf32[i] = rand_get();`
pub rand_words : ℕ → ℕ → Random × (ℕ → ℕ) → Random × (ℕ → ℕ)
unfolding rand_unaligned
rand_words zero buf32 s = s
rand_words (suc iter) buf32 s = rand_words iter (buf32 + 4) (rand_unaligned buf32 4 s)

-- What `random_read` does once the generator has been initialized.
pub rand_fill : ℕ → ℕ → Random × (ℕ → ℕ) → Random × (ℕ → ℕ)
unfolding rand_words
rand_fill buf siz s =
    let iter = buf % 4 in
    let s1 = if iter == 0 then s else rand_unaligned buf (4 - iter) s in
    let words = siz / 4 in
    let buf32 = (buf + 3) / 4 * 4 in
    let s2 = rand_words words buf32 s1 in
    if siz % 4 == 0 then s2 else rand_unaligned (buf32 + 4 * words) (siz % 4) s2

-- `ticks` is the bytes of `timer_ticks`.
pub initialized : List ℕ → Random → ℤ × Random
unfolding random_init
initialized ticks s =
    let first = random_init ticks s in if s.rand_initialized then (pos 0, s) else first

pub random_read : List ℕ → ℕ → ℕ → Random → (ℕ → ℕ) → ℤ × (Random × (ℕ → ℕ))
unfolding initialized rand_fill
random_read ticks buf siz s mem =
    let (n, s1) = initialized ticks s in
    elim n [ negsuc m ↦ (negsuc 0, (s1, mem)) | pos m ↦ (pos siz, rand_fill buf siz (s1, mem)) ]
