-- ===== src/Buddy/Free.antt =====
-- `buddy_free` of kernel/src/mm/buddy.c keeps the allocator's state well formed and gives back
-- exactly the frames of the block.
use native.Mathlib.Nat.{le_of_lt, zero-add}
use beeos.Prelude.{
  ℕ, zero, suc, ◌+◌, ◌-◌, ◌≤◌, ◌<◌, ◌≡◌, refl, ◌∙◌, ◌≢◌, inl, inr, true, false, [], arith,
  Bool-cases, get_or,
}
use beeos.Buddy.{Buddy, bit, flip, couple, buddy_of, put, unlink, free_loop, free}
use beeos.Buddy.Cover.{
  IsApart, Block, inside, cover, has, cover-put, cover-unlink, put-IsApart, unlink-IsApart,
  covers-erase, covers-le-cover, All-has,
}
use beeos.Buddy.Bits.{
  BitsMatch, IsJoined, members, odd, bit-flip, put-BitsMatch, unlink-BitsMatch, top-BitsMatch,
  put-IsJoined, unlink-IsJoined,
}
use beeos.Buddy.Pairs.{couple-buddy_of, has-buddy_of, lower, Block-lower, inside-lower, size_pos}

-- The state of an allocator of `frames` frames.
pub record IsValid (frames : ℕ) (s : Buddy) : Type 0 where
  pub apart : IsApart frames s.order_max s.lists
  pub bits : BitsMatch s.order_max s.lists s.maps

-- No free block covers a frame of the block.
abbrev pub IsUsed : Buddy → ℕ → ℕ → Type 0
IsUsed s b o = (f : ℕ) → cover 0 s.lists f + inside b o f ≤ 1

-- `t` has the frames of the block free as well, and no two free buddies when `s` has none.
pub record Frees (frames : ℕ) (s : Buddy) (b o : ℕ) (t : Buddy) : Type 0 where
  pub valid : IsValid frames t
  pub joins : IsJoined s.order_max s.lists → IsJoined t.order_max t.lists
  pub gains : (f : ℕ) → cover 0 t.lists f ≡ cover 0 s.lists f + inside b o f
  pub order_max : t.order_max ≡ s.order_max

module _ {frames : ℕ} {s : Buddy} (v : IsValid frames s) (o b : ℕ) (blk : Block frames o b)
    (used : IsUsed s b o) where
  -- At the largest order the block has no buddy.
  free_top : o ≡ s.order_max → Frees frames s b o (record s { lists = put s.lists o b })
  free_top e = record {
    valid = record {
      apart = put-IsApart v.apart o b (omega arith) blk used;
      bits = top-BitsMatch s.order_max s.lists s.maps v.apart.orders v.bits o b (omega arith) _ e;
    };
    joins = λ j.
        put-IsJoined s.order_max s.lists v.apart.orders j o b (omega arith)
          (λ lt. absurd (omega arith));
    gains = cover-put v.apart o b (omega arith);
    order_max = refl;
  }

  module _ (lt : o < s.order_max) where
    -- The couple's bit is set after the change: the buddy is in use, and the block joins its list.
    free_alone :
        bit (flip s.maps o (couple (buddy_of b o) o)) o (couple (buddy_of b o) o) ≡ true
        → Frees frames s b o
            (record s { lists = put s.lists o b; maps = flip s.maps o (couple (buddy_of b o) o) })
    free_alone alone = record {
      valid = record {
        apart = put-IsApart v.apart o b (omega arith) blk used;
        bits =
            put-BitsMatch s.order_max s.lists s.maps v.apart.orders v.bits o b (omega arith) _
              (couple-buddy_of o blk);
      };
      joins = λ j. put-IsJoined s.order_max s.lists v.apart.orders j o b (omega arith) λ below.
          ground (
            arith,
            alone,
            bit-flip s.maps o (couple (buddy_of b o) o) o (couple (buddy_of b o) o),
            couple-buddy_of o blk,
            v.bits o (couple b o) lt,
          );
      gains = cover-put v.apart o b (omega arith);
      order_max = refl;
    }

    inside_self : (b o : ℕ) → inside b o b ≡ 1
    inside_self b o = ground (arith, size_pos o)

    not-has : has b (get_or s.lists o []) ≡ false
    not-has = elim (Bool-cases (has b (get_or s.lists o []))) [
      | inl there ↦ absurd (
          omega (
            arith,
            inside_self b o,
            covers-erase o b (get_or s.lists o []) b there,
            rw zero-add at (covers-le-cover 0 o s.lists b),
            used b,
          ))
      | inr out ↦ out
    ]

    -- The bit is clear after the change: the buddy is free.
    buddy-has :
        bit (flip s.maps o (couple (buddy_of b o) o)) o (couple (buddy_of b o) o) ≡ false
        → has (buddy_of b o) (get_or s.lists o []) ≡ true
    buddy-has e = has-buddy_of o blk (get_or s.lists o []) (v.apart.blocks o) not-has (
        some (
          ground (
            arith,
            bit-flip s.maps o (couple (buddy_of b o) o) o (couple (buddy_of b o) o),
            couple-buddy_of o blk,
            v.bits o (couple b o) lt,
          )))
      where
        some :
            odd (members o (couple b o) (get_or s.lists o [])) ≡ true
            → members o (couple b o) (get_or s.lists o []) ≢ 0
        some e z = ground arith

    module _ (there : has (buddy_of b o) (get_or s.lists o []) ≡ true) where
      -- The state and the block with which the loop goes on when the buddy is free.
      abbrev merged : Buddy
      merged = record s {
        lists = unlink s.lists o (buddy_of b o);
        maps = flip s.maps o (couple (buddy_of b o) o);
      }

      merged-IsValid : IsValid frames merged
      merged-IsValid = record {
        apart = unlink-IsApart v.apart o (buddy_of b o) (omega arith) there;
        bits =
            unlink-BitsMatch s.order_max s.lists s.maps v.apart.orders v.bits o (buddy_of b o)
              (omega arith) _ refl there;
      }

      merged-IsJoined : IsJoined s.order_max s.lists → IsJoined s.order_max merged.lists
      merged-IsJoined j =
          unlink-IsJoined s.order_max s.lists v.apart.orders j o (buddy_of b o) (omega arith) there

      merged-Block : Block frames (o + 1) (lower o blk)
      merged-Block =
          Block-lower o blk
            (All-has (Block frames o) (buddy_of b o) (get_or s.lists o []) (v.apart.blocks o) there)

      merged-cover :
          (f : ℕ)
          → cover 0 merged.lists f + inside (lower o blk) (o + 1) f
            ≡ cover 0 s.lists f + inside b o f
      merged-cover f =
          rw (inside-lower o blk)
            (omega (arith, cover-unlink v.apart o (buddy_of b o) (le_of_lt lt) f there))

      Frees-merged :
          (t : Buddy) → Frees frames merged (lower o blk) (o + 1) t → Frees frames s b o t
      Frees-merged t h = record {
        valid = h.valid;
        joins = λ j. h.joins (merged-IsJoined j);
        gains = λ f. h.gains f ∙ merged-cover f;
        order_max = h.order_max;
      }

-- The loop of `buddy_free`, `n` rounds below the largest order.
free_loop-Frees :
    (frames n : ℕ) (s : Buddy) (b o : ℕ)
    → o + n ≡ s.order_max
    → IsValid frames s
    → Block frames o b
    → IsUsed s b o
    → Frees frames s b o (free_loop n s b o)
unfolding free_loop
free_loop-Frees frames zero s b o e v blk used = free_top v o b blk used (omega arith)
free_loop-Frees frames (suc n) s b o e v blk used =
    let maps' = flip s.maps o (couple (buddy_of b o) o) in
    elim (Bool-cases (bit maps' o (couple (buddy_of b o) o))) [
      | inl alone ↦ rw alone (free_alone v o b blk used (omega arith) alone)
      | inr both ↦
          let there = buddy-has v o b blk used (omega arith) both in
          rw both (
            Frees-merged v o b blk used (omega arith) there _ (
              free_loop-Frees frames n (merged v o b blk used (omega arith) there) (lower o blk)
                (o + 1) (omega arith) (merged-IsValid v o b blk used (omega arith) there)
                (merged-Block v o b blk used (omega arith) there)
                λ f. rw (merged-cover v o b blk used (omega arith) there) (used f)))
    ]

-- Giving back a block in an allocator whose state is well formed.
pub free-Frees :
    {frames b o : ℕ} {s : Buddy}
    → IsValid frames s
    → o ≤ s.order_max
    → Block frames o b
    → IsUsed s b o
    → Frees frames s b o (free s b o)
unfolding free
free-Frees {frames} {b} {o} {s} v le blk used =
    free_loop-Frees frames (s.order_max - o) s b o (omega arith) v blk used

-- `t` is well formed, joined, and has the frames of the block free as well.
pub record Freed (frames : ℕ) (s : Buddy) (b o : ℕ) (t : Buddy) : Type 0 where
  pub valid : IsValid frames t
  pub joined : IsJoined t.order_max t.lists
  pub gains : (f : ℕ) → cover 0 t.lists f ≡ cover 0 s.lists f + inside b o f
  pub order_max : t.order_max ≡ s.order_max

-- Giving back a block that is in use keeps the allocator's state well formed (free lists of
-- blocks of their order, no frame in two, each bit set when one of its two buddies is free), and
-- afterwards exactly the frames of the block are free besides those that were. When no two buddies
-- below the largest order were both free, none are afterwards: the block has been joined with its buddy
-- as long as that was free.
pub free-Freed :
    {frames b o : ℕ} {s : Buddy}
    → IsValid frames s
    → IsJoined s.order_max s.lists
    → o ≤ s.order_max
    → Block frames o b
    → IsUsed s b o
    → Freed frames s b o (free s b o)
free-Freed v j le blk used =
    let h = free-Frees v le blk used in
    record { valid = h.valid; joined = h.joins j; gains = h.gains; order_max = h.order_max }
