-- ===== src/Zone/RoundTrip.antt =====
-- A block taken from a zone (kernel/src/mm/zone.c) and given back.
use native.Mathlib.Nat.{mul-div_cancel_left, add-sub_cancel_left}
use native.Mathlib.Decide.{ℕ_discrete}
use mathlib.Core.Path.{ap₂}
use beeos.Prelude.{
  ℕ, ◌+◌, ◌-◌, ◌*◌, ◌/◌, ◌≤◌, ◌<◌, ◌≡◌, refl, ap, sym, ◌∙◌, ◌≢◌, inl, inr, Option, none, some, List,
  arith, length, set, get_or, get_or-set_self, get_or-set_ne, length-set, set-set, set-get_or, ◌⊎◌,
}
use beeos.Buddy.{Buddy, alloc, free}
use beeos.Buddy.Cover.{Block, inside, cover}
use beeos.Buddy.Free.{IsValid, IsUsed, Frees, free-Frees}
use beeos.Buddy.Alloc.{Taken, Allocates, alloc-Allocates}
use beeos.Buddy.Refs.{refs-alloc, refs-free}
use beeos.Buddy.Pairs.{size_pos}
use beeos.Zone.{Zone, refs_at, set_refs, zone_alloc, zone_free}

-- A zone of `frames` frames. Each has its counter; the counter of a frame that heads a free
-- block is 0.
pub record IsZone (frames : ℕ) (z : Zone) : Type 0 where
  pub buddy : IsValid frames z.buddy
  pub counters : length z.buddy.refs ≡ frames
  pub sized : 0 < z.frame_size
  pub idle : (f : ℕ) → cover 0 z.buddy.lists f ≡ 1 → refs_at z.buddy f ≡ 0

-- The pointer to a block.
abbrev pub pointer : Zone → ℕ → ℕ
pointer z i = z.addr + z.frame_size * i

-- A pointer to a block of the order whose frames were free, with the counter of its first frame
-- at 1.
pub record Got (frames : ℕ) (z : Zone) (order ptr : ℕ) (t : Zone) : Type 0 where
  pub index : ℕ
  pub at : ptr ≡ pointer z index
  pub addr : t.addr ≡ z.addr
  pub frame_size : t.frame_size ≡ z.frame_size
  pub taken : Taken frames z.buddy index order t.buddy
  pub refs : t.buddy.refs ≡ set z.buddy.refs index 1
  pub idle : (f : ℕ) → inside index order f ≡ 1 → refs_at z.buddy f ≡ 0

-- What `zone_alloc` gives: NULL and an unchanged zone, or a pointer.
abbrev pub Gets : ℕ → Zone → ℕ → ℕ × Zone → Type 0
Gets frames z order (ptr, t) = IsZone frames t × (((ptr ≡ 0) × (t ≡ z)) ⊎ Got frames z order ptr t)

IsValid-refs :
    {frames : ℕ} {s : Buddy}
    → IsValid frames s
    → (r : List ℕ) → IsValid frames (record s { refs = r })
IsValid-refs v r = record { apart = v.apart; bits = v.bits }

module _ (frames : ℕ) (z : Zone) (v : IsZone frames z) (order i : ℕ) (s : Buddy)
    (taken : Taken frames z.buddy i order s) (same : s.refs ≡ z.buddy.refs) where
  first-in : inside i order i ≡ 1
  first-in = ground (arith, size_pos order)

  was_idle : refs_at z.buddy i ≡ 0
  was_idle = v.idle i (omega (arith, first-in, taken.loses i, v.buddy.apart.once i))

  other_idle : (f : ℕ) → inside i order f ≡ 1 → refs_at z.buddy f ≡ 0
  other_idle f e = v.idle f (omega (arith, e, taken.loses f, v.buddy.apart.once f))

  counted-IsZone : IsZone frames (record z { buddy = set_refs s i (refs_at s i + 1) })
  counted-IsZone = record {
    buddy = IsValid-refs taken.valid _;
    counters = length-set s.refs i (refs_at s i + 1) ∙ ap (λ t. length t) same ∙ v.counters;
    sized = v.sized;
    idle = λ f e.
        let other : i ≢ f = λ p. absurd (
          omega (
            arith,
            first-in,
            e,
            ap (λ t. cover 0 s.lists t) p,
            taken.loses i,
            v.buddy.apart.once i,
          )) in
        get_or-set_ne s.refs i f (refs_at s i + 1) 0 other
        ∙ ap (λ t. get_or t f 0) same
        ∙ v.idle f (omega (arith, e, taken.loses f, v.buddy.apart.once f));
  }

pub zone_alloc-Gets :
    {frames : ℕ} {z : Zone} (order : ℕ) → IsZone frames z → Gets frames z order (zone_alloc z order)
unfolding zone_alloc
zone_alloc-Gets {frames} {z} order v =
    go (alloc z.buddy order) (alloc-Allocates order v.buddy) (refs-alloc z.buddy order)
  where
    go :
        (r : Option ℕ × Buddy)
        → Allocates frames z.buddy order r
        → r.1.refs ≡ z.buddy.refs
        → Gets frames z order (elim r.0 [
          | none ↦ (0, z)
          | some i ↦
              (z.addr + z.frame_size * i, record z { buddy = set_refs r.1 i (refs_at r.1 i + 1) })
        ])
    go (none, s) h same = (v, inl (refl, refl))
    go (some i, s) h same = (
      counted-IsZone frames z v order i s h same,
      inr (record {
        index = i;
        at = refl;
        addr = refl;
        frame_size = refl;
        taken = record {
          block = h.block;
          valid = IsValid-refs h.valid _;
          loses = h.loses;
          order_max = h.order_max;
        };
        refs = count same (was_idle frames z v order i s h same);
        idle = other_idle frames z v order i s h same;
      }),
    )
      where
        count :
            s.refs ≡ z.buddy.refs
            → refs_at z.buddy i ≡ 0
            → set s.refs i (refs_at s i + 1) ≡ set z.buddy.refs i 1
        count e idle = rw (e, idle)

-- Giving back the last reference to a block.
module _ (frames : ℕ) (z : Zone) (v : IsZone frames z) (order i : ℕ)
    (le : order ≤ z.buddy.order_max) (blk : Block frames order i) (used : IsUsed z.buddy i order)
    (last : refs_at z.buddy i ≡ 1)
    (others : (f : ℕ) → inside i order f ≡ 1 → f ≢ i → refs_at z.buddy f ≡ 0) where
  -- The allocator's state afterwards.
  abbrev given_back : Buddy
  given_back = free (set_refs z.buddy i 0) i order

  given_back-Frees : Frees frames (set_refs z.buddy i 0) i order given_back
  given_back-Frees = free-Frees (IsValid-refs v.buddy _) le blk used

  zone_free-last : zone_free z (pointer z i) order ≡ record z { buddy = given_back }
  unfolding zone_free
  zone_free-last =
      let at : (pointer z i - z.addr) / z.frame_size ≡ i =
        rw add-sub_cancel_left (mul-div_cancel_left i v.sized) in
      rw (at, last)

  zero_at : (f : ℕ) → cover 0 given_back.lists f ≡ 1 → get_or (set z.buddy.refs i 0) f 0 ≡ 0
  zero_at f e = elim (ℕ_discrete i f) [
    | yes p ↦
        rw (← p) (
          get_or-set_self z.buddy.refs i 0 0
            (omega (arith, blk.within, size_pos order, v.counters)))
    | no n ↦ get_or-set_ne z.buddy.refs i f 0 0 n ∙ elim (ℕ_discrete (inside i order f) 1) [
      | yes inn ↦ others f inn (λ q. n (sym q))
      | no out ↦ v.idle f (ground (arith, given_back-Frees.gains f))
    ]
  ]

  given_back-IsZone : IsZone frames (record z { buddy = given_back })
  given_back-IsZone = record {
    buddy = given_back-Frees.valid;
    counters =
        ap (λ t. length t) (refs-free (set_refs z.buddy i 0) i order)
        ∙ length-set z.buddy.refs i 0
        ∙ v.counters;
    sized = v.sized;
    idle = λ f e. ap (λ t. get_or t f 0) (refs-free (set_refs z.buddy i 0) i order) ∙ zero_at f e;
  }

-- `u` is the zone `z` again: the same frames are free, and every counter is as it was.
pub record SameFrames (frames : ℕ) (z u : Zone) : Type 0 where
  pub valid : IsZone frames u
  pub free_frames : (f : ℕ) → cover 0 u.buddy.lists f ≡ cover 0 z.buddy.lists f
  pub counters : u.buddy.refs ≡ z.buddy.refs

module _ (frames : ℕ) (z : Zone) (v : IsZone frames z) (order : ℕ) (le : order ≤ z.buddy.order_max)
    (t : Zone) (vt : IsZone frames t) (ptr : ℕ) (g : Got frames z order ptr t) where
  open g use {index as i, taken, refs, idle}

  IsUsed-there : IsUsed t.buddy i order
  IsUsed-there f = omega (arith, taken.loses f, v.buddy.apart.once f)

  in_range : i < length z.buddy.refs
  in_range = omega (arith, taken.block.within, size_pos order, v.counters)

  one_there : refs_at t.buddy i ≡ 1
  one_there = ap (λ l. get_or l i 0) refs ∙ get_or-set_self z.buddy.refs i 1 0 in_range

  none_there : (f : ℕ) → inside i order f ≡ 1 → f ≢ i → refs_at t.buddy f ≡ 0
  none_there f inn ne =
      ap (λ l. get_or l f 0) refs
      ∙ get_or-set_ne z.buddy.refs i f 1 0 (λ p. ne (sym p))
      ∙ idle f inn

  order_there : order ≤ t.buddy.order_max
  order_there = omega (arith, taken.order_max)

  counters_there : set t.buddy.refs i 0 ≡ z.buddy.refs
  counters_there =
      ap (λ l. set l i 0) refs
      ∙ set-set z.buddy.refs i 1 0
      ∙ ap (λ k. set z.buddy.refs i k) (sym (idle i (ground (arith, size_pos order))))
      ∙ set-get_or z.buddy.refs i 0

  give-back : SameFrames frames z (zone_free t (pointer t i) order)
  give-back =
      rw
        (zone_free-last frames t vt order i order_there taken.block IsUsed-there one_there
          none_there)
        (record {
          valid =
              given_back-IsZone frames t vt order i order_there taken.block IsUsed-there one_there
                none_there;
          free_frames = λ f.
              (given_back-Frees frames t vt order i order_there taken.block IsUsed-there one_there
                  none_there).gains
                f
              ∙ taken.loses f;
          counters = refs-free (set_refs t.buddy i 0) i order ∙ counters_there;
        })

-- What `zone_alloc` hands out, `zone_free` takes back: in a well-formed zone that does not begin at
-- address 0, an allocation either returns NULL and changes nothing, or returns a pointer with
-- which `zone_free` makes the same frames free and restores every counter.
pub zone_free-zone_alloc :
    {frames : ℕ} {z : Zone} (order : ℕ)
    → IsZone frames z
    → 0 < z.addr
    → order ≤ z.buddy.order_max
    → let (ptr, t) = zone_alloc z order in
      ((ptr ≡ 0) × (t ≡ z)) ⊎ ((ptr ≢ 0) × SameFrames frames z (zone_free t ptr order))
zone_free-zone_alloc {frames} {z} order v base le =
    go (zone_alloc z order) (zone_alloc-Gets order v)
  where
    go :
        (r : ℕ × Zone)
        → Gets frames z order r
        → ((r.0 ≡ 0) × (r.1 ≡ z)) ⊎ ((r.0 ≢ 0) × SameFrames frames z (zone_free r.1 r.0 order))
    go (ptr, t) (vt, inl h) = inl h
    go (ptr, t) (vt, inr g) = inr (
      λ null. absurd (omega (arith, g.at, base)),
      rw (g.at ∙ ap₂ (λ (a k : ℕ). a + k * g.index) (sym g.addr) (sym g.frame_size))
          (give-back frames z v order le t vt ptr g),
    )
