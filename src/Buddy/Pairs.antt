-- ===== src/Buddy/Pairs.antt =====
-- The couples of buddies of kernel/src/mm/buddy.c: where the buddy of a block lies.
use native.Mathlib.Nat.{pow-suc, mul-div-mul_right, mul-div_cancel}
use native.Mathlib.Numerals.{add-one}
use beeos.Prelude.{
  ℕ, zero, suc, ◌+◌, ◌-◌, ◌*◌, ◌/◌, ◌%◌, ◌^◌, ◌<◌, ◌≡◌, refl, ap, sym, ◌∙◌, ◌≢◌, ◌⊎◌, inl, inr,
  true, false, List, [], ◌∷◌, arith, ltb, ◌==◌, if◌then◌else◌, All, Bool-cases,
}
use beeos.Buddy.{couple, buddy_of}
use beeos.Buddy.Cover.{Block, inside, has}
use beeos.Buddy.Bits.{members}

pub size_pos : (o : ℕ) → 0 < 2 ^ o
size_pos zero = omega arith
size_pos (suc o) = rw pow-suc (omega (arith, size_pos o))

module _ (o : ℕ) where
  pub size-add_one : 2 ^ (o + 1) ≡ 2 * 2 ^ o
  size-add_one = rw (add-one, pow-suc) (omega arith)

  -- A block by its index: its couple, its buddy, and the block that the two make up.
  couple-mul : (k : ℕ) → couple (k * 2 ^ o) o ≡ k / 2
  couple-mul k = rw (size-add_one, mul-div-mul_right k 2 (size_pos o))

  buddy_of-mul :
      (k : ℕ)
      → buddy_of (k * 2 ^ o) o ≡ (if k % 2 == 0 then k * 2 ^ o + 2 ^ o else k * 2 ^ o - 2 ^ o)
  unfolding buddy_of
  buddy_of-mul k = rw (mul-div_cancel k (size_pos o))

  -- The index of the buddy.
  abbrev other : ℕ → ℕ
  other k = if k % 2 == 0 then k + 1 else k - 1

  other-eq : {i k : ℕ} → i ≢ k → i / 2 ≡ k / 2 → other k ≡ i
  other-eq ne e = ground arith

  buddy_of-index : (k : ℕ) → buddy_of (k * 2 ^ o) o ≡ other k * 2 ^ o
  buddy_of-index k = rw buddy_of-mul (elim (Bool-cases (k % 2 == 0)) [
    | inl e ↦ rw e (omega arith)
    | inr e ↦ rw e (sub-one k (ground arith))
  ])
    where
      sub-one : (k : ℕ) → k ≢ 0 → k * 2 ^ o - 2 ^ o ≡ (k - 1) * 2 ^ o
      sub-one zero h = absurd (h refl)
      sub-one (suc k) h = let e : suc k - 1 ≡ k = omega arith in rw e (omega arith)

  -- The two halves of a block of the next order.
  module _ {frames b : ℕ} (blk : Block frames (o + 1) b) where
    whole : b ≡ blk.index * (2 * 2 ^ o)
    whole = blk.aligned ∙ ap (λ t. blk.index * t) size-add_one

    pub Block-left : Block frames o b
    Block-left = record {
      index = 2 * blk.index;
      aligned = omega (arith, whole);
      within = omega (arith, size-add_one);
    }

    pub Block-right : Block frames o (b + 2 ^ o)
    Block-right = record {
      index = 2 * blk.index + 1;
      aligned = omega (arith, whole);
      within = omega (arith, size-add_one);
    }

  pub inside-halves : (b f : ℕ) → inside b (o + 1) f ≡ inside b o f + inside (b + 2 ^ o) o f
  inside-halves b f = rw size-add_one (ground (arith, size_pos o))

  module _ {frames b : ℕ} (blk : Block frames o b) where
    buddy-index : buddy_of b o ≡ other blk.index * 2 ^ o
    buddy-index = rw blk.aligned (buddy_of-index blk.index)

    couple-index : couple b o ≡ blk.index / 2
    couple-index = rw blk.aligned (couple-mul blk.index)

    pub couple-buddy_of : couple (buddy_of b o) o ≡ couple b o
    couple-buddy_of = rw (buddy-index, couple-mul (other blk.index), couple-index) (ground arith)

    -- Another block of the couple can only be the buddy.
    buddy-eq : (x : ℕ) → Block frames o x → couple x o ≡ couple b o → x ≢ b → buddy_of b o ≡ x
    buddy-eq x kx e ne = rw (buddy-index, kx.aligned) (ap (λ t. t * 2 ^ o) same)
      where
        halves : kx.index / 2 ≡ blk.index / 2
        halves = sym (mine x kx) ∙ e ∙ couple-index
          where
            mine : (x : ℕ) (kx : Block frames o x) → couple x o ≡ kx.index / 2
            mine x kx = rw kx.aligned (couple-mul kx.index)

        apart : kx.index ≢ blk.index
        apart h = ne (kx.aligned ∙ ap (λ t. t * 2 ^ o) h ∙ sym blk.aligned)

        same : other blk.index ≡ kx.index
        same = other-eq apart halves

    -- A couple that has a free member other than the block has the buddy free.
    pub has-buddy_of :
        (l : List ℕ)
        → All (Block frames o) l
        → has b l ≡ false
        → members o (couple b o) l ≢ 0
        → has (buddy_of b o) l ≡ true
    unfolding members
    has-buddy_of [] h out some = absurd (some refl)
    has-buddy_of (x ∷ xs) h out some = elim (Bool-cases (couple x o == couple b o)) [
      | inl e ↦ let e' = buddy-eq x h.0 (ground arith) (ground arith) in rw e' (ground arith)
      | inr e ↦ ground (arith, has-buddy_of xs h.1)
    ]

    abbrev pub lower : ℕ
    lower = if ltb (buddy_of b o) b then buddy_of b o else b

    -- The buddy lies right behind an even block, and right in front of an odd one.
    sides :
        ((buddy_of b o ≡ b + 2 ^ o) × (b ≡ blk.index / 2 * (2 * 2 ^ o)))
        ⊎ ((b ≡ buddy_of b o + 2 ^ o) × (buddy_of b o ≡ blk.index / 2 * (2 * 2 ^ o)))
    sides = rw (buddy-index) (elim (Bool-cases (blk.index % 2 == 0)) [
      | inl e ↦
          rw e (inl (rw blk.aligned (omega arith), rw blk.aligned (twice blk.index (ground arith))))
      | inr e ↦ rw e (
          inr (
            rw blk.aligned (next (blk.index - 1) (ground arith)),
            twice (blk.index - 1) (ground arith),
          ))
    ])
      where
        next : (i : ℕ) → blk.index ≡ i + 1 → blk.index * 2 ^ o ≡ i * 2 ^ o + 2 ^ o
        next i e = omega (arith, ap (λ t. t * 2 ^ o) e)

        twice : (i : ℕ) → i ≡ blk.index / 2 * 2 → i * 2 ^ o ≡ blk.index / 2 * (2 * 2 ^ o)
        twice i e = omega (arith, ap (λ t. t * 2 ^ o) e)

    -- The couple of two buddies is the block of the next order at the lower of the two.
    pub Block-lower : Block frames o (buddy_of b o) → Block frames (o + 1) lower
    Block-lower kb = record {
      index = blk.index / 2;
      aligned = rw size-add_one (ground (arith, sides, size_pos o));
      within = rw size-add_one (ground (arith, sides, kb.within, blk.within));
    }

    pub inside-lower : (f : ℕ) → inside lower (o + 1) f ≡ inside b o f + inside (buddy_of b o) o f
    inside-lower f = rw size-add_one (ground (arith, sides, size_pos o))
