-- ===== src/Buddy/Init.antt =====
-- `buddy_init` of kernel/src/mm/buddy.c. What `kmalloc` answers is a parameter: `given k` says whether
-- the k-th allocation succeeds (the frames, the table of orders, then the map of each order).
use native.Mathlib.Nat.{le-div_iff_mul-le, div-mul-le_self}
use beeos.Prelude.{
  ℕ, zero, suc, ◌+◌, ◌-◌, ◌/◌, ◌^◌, ◌≤◌, ◌<◌, ◌≡◌, All, length, ◌⊎◌, Bool, true, false, not, [],
  arith, leb, ◌==◌, if◌then◌else◌, replicate,
}
use beeos.Util.{fnzb}
use beeos.Buddy.{Buddy, couple, word_bits}
use beeos.Buddy.Cover.{Block, cover}
use beeos.Buddy.Bits.{IsJoined}
use beeos.Buddy.Free.{IsValid}
use beeos.Buddy.Pairs.{size_pos}

-- The last one is for the rollback that is still going on when its rounds are used up.
pub data Init : Type 0 where
  ready : Buddy → Init
  failed : Init
  rolling_back : Init

-- The number of words that the map of order `i` gets.
pub map_words : ℕ → ℕ → ℕ
map_words frames_num i = (frames_num / 2 ^ (i + 1) - 1) / word_bits + 1

-- What is there when every allocation has succeeded.
pub fresh : ℕ → ℕ → Buddy
fresh frames_num frame_size = record {
  order_bit = fnzb frame_size;
  order_max = fnzb frames_num;
  lists = replicate (fnzb frames_num + 1) [];
  maps = λ o w k. false;
  refs = replicate frames_num 1;
}

-- `while (i > 0)` of the rollback, with the rounds that are left: whether it ends. Its body frees a map
-- and computes `count`, and leaves `i`.
pub rollback : ℕ → ℕ → Bool
rollback zero i = false
rollback (suc n) i = let rest = rollback n i in if i == 0 then true else rest

module _ (given : ℕ → Bool) (rounds : ℕ) where
  -- The loop over the orders, with `n` of them to go.
  pub init_maps : ℕ → ℕ → Buddy → Init
  unfolding rollback
  init_maps zero i s = ready s
  init_maps (suc n) i s =
      let rest = init_maps n (i + 1) s in
      if given (2 + i) then rest else (if rollback rounds i then failed else rolling_back)

  unfoldable pub init : ℕ → ℕ → Init
  unfolding init_maps fresh
  init frames_num frame_size =
      if leb 32 (fnzb frame_size + fnzb frames_num)
      then failed
      else (if not (given 0)
          then failed
          else (if not (given 1)
              then failed
              else init_maps (fnzb frames_num) 0 (fresh frames_num frame_size)))

-- What an outcome says of the allocations.
abbrev pub Starts : (ℕ → Bool) → ℕ → ℕ → Init → Type 0
Starts given n size (ready s) =
    IsValid n s
    × ((f : ℕ) → cover 0 s.lists f ≡ 0)
    × (s.order_max ≡ fnzb n)
    × (s.order_bit ≡ fnzb size)
    × (length s.refs ≡ n)
    × All (λ c. c ≡ 1) s.refs
    × IsJoined s.order_max s.lists
    × (given 0 ≡ true)
    × (given 1 ≡ true)
    × ((j : ℕ) → j < fnzb n → given (2 + j) ≡ true)
Starts given n size failed =
    (32 ≤ fnzb size + fnzb n) ⊎ ((given 0 ≡ false) ⊎ ((given 1 ≡ false) ⊎ (given 2 ≡ false)))
Starts given n size rolling_back = (k : ℕ) × (0 < k) × (k < fnzb n) × (given (2 + k) ≡ false)

module _ (given : ℕ → Bool) (rounds : ℕ) (positive : 0 < rounds) (s : Buddy) where
  -- What the loop over the maps comes to.
  abbrev Maps : ℕ → ℕ → Init → Type 0
  Maps i m (ready t) = (t ≡ s) × ((j : ℕ) → i ≤ j → j < m → given (2 + j) ≡ true)
  Maps i m failed = (i ≡ 0) × (given 2 ≡ false)
  Maps i m rolling_back = (k : ℕ) × (0 < k) × (k < m) × (given (2 + k) ≡ false)

-- The word of a block's couple lies in the map of its order, unless the couple is the last, cut
-- off by the end of the frames, and begins a word: then it lies one word behind the map.
pub couple-map_words :
    {frames o b : ℕ}
    → Block frames o b
    → 2 ^ (o + 1) ≤ frames
    → (couple b o / word_bits < map_words frames o)
      ⊎ ((couple b o ≡ frames / 2 ^ (o + 1)) × (couple b o / word_bits ≡ map_words frames o))
unfolding map_words
couple-map_words {frames} {o} {b} blk big = ground (arith, below, some)
  where
    some : 1 ≤ frames / 2 ^ (o + 1)
    some = (le-div_iff_mul-le (size_pos (o + 1))).1 (omega arith)

    below : couple b o ≤ frames / 2 ^ (o + 1)
    below =
        (le-div_iff_mul-le (size_pos (o + 1))).1
          (omega (arith, div-mul-le_self b (2 ^ (o + 1)), blk.within))
