-- ===== src/Buddy/Tests.antt =====
-- Runs of the buddy allocator, and its theorems at concrete states.
use Prim.Native.Nat.{bit_xor}
use beeos.Util.{fnzb}
use beeos.Prelude.{
  ℕ, zero, suc, ◌^◌, ◌≤◌, ◌≡◌, refl, Bool, true, not, ◌&&◌, ◌||◌, ◌==◌, All, get_or, [], ◌∷◌, some,
  arith,
}
use beeos.Buddy.{Buddy, buddy_of, alloc, free, flip, erase}
use beeos.Buddy.Cover.{Block, cover, covers}
use beeos.Buddy.Bits.{members, BitsMatch, IsJoined}
use beeos.Buddy.Free.{IsValid, Freed, free-Freed}
use beeos.Buddy.Init.{init, rolling_back}
use beeos.Buddy.Joins.{alloc-IsJoined}
use beeos.Buddy.Alloc.{Allocates, alloc-Allocates}

-- `buddy_of` is the exclusive or with the bit of the order, tried on small indices.
xor_table : ℕ → ℕ → Bool
xor_table o zero = true
xor_table o (suc b) = (buddy_of b o == bit_xor b (2 ^ o)) && xor_table o b

buddy_of_xor : (xor_table 0 64 ≡ true) × (xor_table 1 64 ≡ true) × (xor_table 3 64 ≡ true)
unfolding xor_table buddy_of
buddy_of_xor = (refl, refl, refl)

-- Eight frames; the blocks 0..1 and 4..7 are free.
abbrev partial : Buddy
partial = record {
  order_bit = 12;
  order_max = 3;
  lists = [] ∷ (0 ∷ []) ∷ (4 ∷ []) ∷ [] ∷ [];
  maps = λ o w k. ((o == 1) && ((w == 0) && (k == 0))) || ((o == 2) && ((w == 0) && (k == 0)));
  refs = [];
}

partial-blocks : (o : ℕ) → All (Block 8 o) (get_or partial.lists o [])
partial-blocks zero = tt
partial-blocks (suc zero) = (record { index = 0; aligned = refl; within = omega arith }, tt)
partial-blocks (suc (suc zero)) = (record { index = 1; aligned = refl; within = omega arith }, tt)
partial-blocks (suc (suc (suc zero))) = tt
partial-blocks (suc (suc (suc (suc o)))) = tt

partial-bits : BitsMatch 3 partial.lists partial.maps
unfolding members
partial-bits zero j lt = ground arith
partial-bits (suc zero) j lt = ground arith
partial-bits (suc (suc zero)) j lt = ground arith
partial-bits (suc (suc (suc o))) j lt = absurd (omega arith)

partial-once : (f : ℕ) → cover 0 partial.lists f ≤ 1
unfolding cover covers
partial-once f = ground arith

partial-IsValid : IsValid 8 partial
partial-IsValid = record {
  apart = record { orders = refl; blocks = partial-blocks; once = partial-once };
  bits = partial-bits;
}

partial-IsJoined : IsJoined 3 partial.lists
unfolding members
partial-IsJoined zero j lt = ground arith
partial-IsJoined (suc zero) j lt = ground arith
partial-IsJoined (suc (suc zero)) j lt = ground arith
partial-IsJoined (suc (suc (suc o))) j lt = absurd (omega arith)

-- Giving back the frames 2..3 joins everything to one block.
free_joins : (free partial 2 1).lists ≡ [] ∷ [] ∷ [] ∷ (0 ∷ []) ∷ []
unfolding free flip erase
free_joins = refl

free-Freed_example : Freed 8 partial 2 1 (free partial 2 1)
unfolding cover covers
free-Freed_example =
    free-Freed partial-IsValid partial-IsJoined (omega arith)
      (record { index = 1; aligned = refl; within = omega arith }) λ f. ground arith

alloc_splits : (alloc partial 0).0 ≡ some 0
unfolding alloc
alloc_splits = refl

alloc-Allocates_example : Allocates 8 partial 0 (alloc partial 0)
alloc-Allocates_example = alloc-Allocates 0 partial-IsValid

alloc-IsJoined_example : IsJoined 3 (alloc partial 0).1.lists
alloc-IsJoined_example = alloc-IsJoined 8 partial 0 partial-IsValid partial-IsJoined

init_rolls_back : init (λ k. not (k == 3)) 9 8 4096 ≡ rolling_back
unfolding init fnzb
init_rolls_back = refl
