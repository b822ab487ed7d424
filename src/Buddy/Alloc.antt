-- ===== src/Buddy/Alloc.antt =====
-- `buddy_alloc` of kernel/src/mm/buddy.c: the block that it returns, and what is free afterwards.
use native.Mathlib.Nat.{le_of_lt}
use native.Mathlib.Decide.{ℕ_discrete}
use beeos.Prelude.{
  ℕ, zero, suc, ◌+◌, ◌-◌, ◌^◌, ◌≤◌, ◌<◌, ◌≡◌, refl, ◌∙◌, inl, inr, true, Option, none, some, List,
  [], ◌∷◌, arith, ◌==◌, if◌then◌else◌, Bool-cases, get_or,
}
use beeos.Buddy.{Buddy, flip, couple, put, unlink, find_block, split, take_block, alloc}
use beeos.Buddy.Cover.{
  Block, inside, cover, has, cover-put, cover-unlink, put-IsApart, unlink-IsApart, All-has,
}
use beeos.Buddy.Bits.{put-BitsMatch, unlink-BitsMatch, top-BitsMatch}
use beeos.Buddy.Pairs.{Block-left, Block-right, inside-halves}
use beeos.Buddy.Free.{IsValid, IsUsed}

-- The orders from `i` on, `n` of them, have no free block.
abbrev pub NoneFree : ℕ → List (List ℕ) → ℕ → Type 0
NoneFree n ls i = (k : ℕ) → i ≤ k → k < i + n → get_or ls k [] ≡ []

-- What the search finds: nothing anywhere, or a free block of the smallest order that has one.
abbrev pub Finds : ℕ → List (List ℕ) → ℕ → Option (ℕ × ℕ) → Type 0
Finds n ls i none = NoneFree n ls i
Finds n ls i (some (j, b)) =
    (i ≤ j) × (j < i + n) × (has b (get_or ls j []) ≡ true) × NoneFree (j - i) ls i

pub find_block-Finds : (n : ℕ) (ls : List (List ℕ)) (i : ℕ) → Finds n ls i (find_block n ls i)
unfolding find_block
find_block-Finds zero ls i = λ k le lt. absurd (omega arith)
find_block-Finds (suc n) ls i =
    go (get_or ls i []) refl (find_block n ls (i + 1)) (find_block-Finds n ls (i + 1))
  where
    here :
        (l : List ℕ)
        → get_or ls i [] ≡ l
        → l ≡ []
        → (m : ℕ) → NoneFree m ls (i + 1)
        → NoneFree (suc m) ls i
    here l e nil m rest k le lt = elim (ℕ_discrete i k) [
      | yes same ↦ rw (← same) (e ∙ nil)
      | no other ↦ rest k (omega arith) (omega arith)
    ]

    go :
        (l : List ℕ)
        → get_or ls i [] ≡ l
        → (r : Option (ℕ × ℕ)) → Finds n ls (i + 1) r
        → Finds (suc n) ls i (elim l [ [] ↦ r | b ∷ _ ↦ some (i, b) ])
    go [] e none f = here [] e refl n f
    go [] e (some (j, b)) f =
        let shift : j - i ≡ suc (j - (i + 1)) = omega (arith, f.0) in
        (omega (arith, f.0), omega (arith, f.1), f.2, rw shift (here [] e refl (j - (i + 1)) f.3))
    go (b ∷ bs) e r f =
        (omega arith, omega arith, rw e (ground arith), λ k le lt. absurd (omega arith))

-- `t` is `s` with a block of order `n` gone from its free blocks, but for the frames of the block
-- of order `o` at the same place, which it does not have.
record Splits (frames : ℕ) (s : Buddy) (b n o : ℕ) (t : Buddy) : Type 0 where
  block : Block frames o b
  valid : IsValid frames t
  keeps : (f : ℕ) → cover 0 t.lists f + inside b o f ≡ cover 0 s.lists f + inside b n f
  order_max : t.order_max ≡ s.order_max

module _ (frames : ℕ) (s : Buddy) (b j : ℕ) (v : IsValid frames s) (lt : j < s.order_max)
    (blk : Block frames (j + 1) b) (used : IsUsed s b (j + 1)) where
  -- The state after one round, in which the right half has joined the list of its order.
  abbrev halved : Buddy
  halved = record s {
    lists = put s.lists j (b + 2 ^ j);
    maps = flip s.maps j (couple (b + 2 ^ j) j);
  }

  halved-cover :
      (f : ℕ) → cover 0 halved.lists f + inside b j f ≡ cover 0 s.lists f + inside b (j + 1) f
  halved-cover f =
      omega (arith, inside-halves j b f, cover-put v.apart j (b + 2 ^ j) (omega arith) f)

  halved-IsValid : IsValid frames halved
  halved-IsValid = record {
    apart =
        put-IsApart v.apart j (b + 2 ^ j) (omega arith) (Block-right j blk)
          λ f. omega (arith, inside-halves j b f, used f);
    bits =
        put-BitsMatch s.order_max s.lists s.maps v.apart.orders v.bits j (b + 2 ^ j) (omega arith) _
          refl;
  }

  Splits-halved : (o : ℕ) (t : Buddy) → Splits frames halved b j o t → Splits frames s b (j + 1) o t
  Splits-halved o t h = record {
    block = h.block;
    valid = h.valid;
    keeps = λ f. h.keeps f ∙ halved-cover f;
    order_max = h.order_max;
  }

-- The second loop gives every right half back and keeps the first block of order `o`.
split-Splits :
    (frames n : ℕ) (s : Buddy) (b o i : ℕ)
    → i ≡ o + n
    → i ≤ s.order_max
    → IsValid frames s
    → Block frames i b
    → IsUsed s b i
    → Splits frames s b i o (split n s b o)
unfolding split
split-Splits frames zero s b o i e le v blk used =
    let e' : i ≡ o = omega arith in
    record { block = rw e' at blk; valid = v; keeps = λ f. rw e'; order_max = refl }
split-Splits frames (suc n) s b o i e le v blk used =
    let e' : i ≡ o + n + 1 = omega arith in
    let blk' : Block frames (o + n + 1) b = rw e' at blk in
    let used' : IsUsed s b (o + n + 1) = rw e' at used in
    let lt : o + n < s.order_max = omega arith in
    rw e' (
      Splits-halved frames s b (o + n) v lt blk' used' o _ (
        split-Splits frames n (halved frames s b (o + n) v lt blk' used') b o (o + n) refl
          (le_of_lt lt) (halved-IsValid frames s b (o + n) v lt blk' used')
          (Block-left (o + n) blk')
          λ f. rw (halved-cover frames s b (o + n) v lt blk' used') (used' f)))

-- `t` is `s` without the frames of a free block of order `o` at `b`.
pub record Taken (frames : ℕ) (s : Buddy) (b o : ℕ) (t : Buddy) : Type 0 where
  pub block : Block frames o b
  pub valid : IsValid frames t
  pub loses : (f : ℕ) → cover 0 t.lists f + inside b o f ≡ cover 0 s.lists f
  pub order_max : t.order_max ≡ s.order_max

module _ (frames : ℕ) (s : Buddy) (o i b : ℕ) (v : IsValid frames s) (le : i ≤ s.order_max)
    (oi : o ≤ i) (there : has b (get_or s.lists i []) ≡ true) where
  -- The state in which the block is off its list.
  abbrev removed : Buddy
  removed =
      if i == s.order_max
      then record s { lists = unlink s.lists i b }
      else record s { lists = unlink s.lists i b; maps = flip s.maps i (couple b i) }

  removed-IsValid : IsValid frames removed
  removed-IsValid = elim (Bool-cases (i == s.order_max)) [
    | inl e ↦ rw e (record {
      apart = unlink-IsApart v.apart i b le there;
      bits = top-BitsMatch s.order_max s.lists s.maps v.apart.orders v.bits i b le _ (ground arith);
    })
    | inr e ↦ rw e (record {
      apart = unlink-IsApart v.apart i b le there;
      bits = unlink-BitsMatch s.order_max s.lists s.maps v.apart.orders v.bits i b le _ refl there;
    })
  ]

  removed-lists : removed.lists ≡ unlink s.lists i b
  removed-lists = ground arith

  removed-order_max : removed.order_max ≡ s.order_max
  removed-order_max = ground arith

  removed-cover : (f : ℕ) → cover 0 removed.lists f + inside b i f ≡ cover 0 s.lists f
  removed-cover f = rw removed-lists (cover-unlink v.apart i b le f there)

  Block-taken : Block frames i b
  Block-taken = All-has (Block frames i) b (get_or s.lists i []) (v.apart.blocks i) there

  take_block-Taken : Taken frames s b o (take_block s o i b)
  unfolding take_block
  take_block-Taken = record {
    block = h.block;
    valid = h.valid;
    loses = λ f. h.keeps f ∙ removed-cover f;
    order_max = h.order_max ∙ removed-order_max;
  }
    where
      h : Splits frames removed b i o (split (i - o) removed b o)
      h =
          split-Splits frames (i - o) removed b o i (omega arith) (rw removed-order_max le)
            removed-IsValid Block-taken λ f. omega (arith, removed-cover f, v.apart.once f)

-- What an allocation of order `o` gives: a block, when some order from `o` on has a free one.
abbrev pub Allocates : ℕ → Buddy → ℕ → Option ℕ × Buddy → Type 0
Allocates frames s o (none, t) =
    (t ≡ s) × ((k : ℕ) → o ≤ k → k ≤ s.order_max → get_or s.lists k [] ≡ [])
Allocates frames s o (some b, t) = Taken frames s b o t

-- Asked for a block of order `o`, a well-formed allocator returns a block of that order, aligned
-- to its size, keeps its state well formed and has exactly the frames of the block no longer
-- free; or it returns NULL and changes nothing, and then no order from `o` up has a free block.
pub alloc-Allocates :
    {frames : ℕ} {s : Buddy} (o : ℕ) → IsValid frames s → Allocates frames s o (alloc s o)
unfolding alloc
alloc-Allocates {frames} {s} o v =
    go (find_block (s.order_max + 1 - o) s.lists o) (find_block-Finds _ s.lists o)
  where
    go :
        (r : Option (ℕ × ℕ))
        → Finds (s.order_max + 1 - o) s.lists o r
        → Allocates frames s o
            (elim r [ none ↦ (none, s) | some (i, b) ↦ (some b, take_block s o i b) ])
    go none f = (refl, λ k le lt. f k le (omega arith))
    go (some (i, b)) f = take_block-Taken frames s o i b v (omega (arith, f.1)) f.0 f.2
