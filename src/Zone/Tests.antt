-- ===== src/Zone/Tests.antt =====
-- The theorems on zones at concrete zones.
use beeos.Prelude.{ℕ, zero, suc, ◌≤◌, ◌<◌, ◌≡◌, refl, ◌≢◌, ◌⊎◌, [], ◌∷◌, arith, All, get_or, false}
use beeos.Buddy.Cover.{Block, cover, covers}
use beeos.Buddy.Bits.{members, odd}
use beeos.Zone.{Zone, refs_at, zone_alloc, zone_free}
use beeos.Zone.RoundTrip.{IsZone, SameFrames, zone_free-zone_alloc}

-- Two free pages at 1 MB.
abbrev two_pages : Zone
two_pages = record {
  addr = 0x100000;
  size = 8192;
  frame_size = 4096;
  flags = 1;
  buddy = record {
    order_bit = 12;
    order_max = 1;
    lists = [] ∷ (0 ∷ []) ∷ [];
    maps = λ o w k. false;
    refs = 0 ∷ 0 ∷ [];
  };
}

two_pages-blocks : (o : ℕ) → All (Block 2 o) (get_or two_pages.buddy.lists o [])
two_pages-blocks zero = tt
two_pages-blocks (suc zero) = (record { index = 0; aligned = refl; within = omega arith }, tt)
two_pages-blocks (suc (suc o)) = tt

two_pages-once : (f : ℕ) → cover 0 two_pages.buddy.lists f ≤ 1
unfolding cover covers
two_pages-once f = ground arith

two_pages-idle : (f : ℕ) → refs_at two_pages.buddy f ≡ 0
two_pages-idle zero = refl
two_pages-idle (suc zero) = refl
two_pages-idle (suc (suc f)) = refl

two_pages-bits : (o j : ℕ) → o < 1 → false ≡ odd (members o j (get_or two_pages.buddy.lists o []))
unfolding members
two_pages-bits zero j lt = refl
two_pages-bits (suc o) j lt = absurd (omega arith)

two_pages-IsZone : IsZone 2 two_pages
two_pages-IsZone = record {
  buddy = record {
    apart = record { orders = refl; blocks = two_pages-blocks; once = two_pages-once };
    bits = two_pages-bits;
  };
  counters = refl;
  sized = omega arith;
  idle = λ f e. two_pages-idle f;
}

zone_free-zone_alloc_example :
    let (ptr, t) = zone_alloc two_pages 0 in
    ((ptr ≡ 0) × (t ≡ two_pages)) ⊎ ((ptr ≢ 0) × SameFrames 2 two_pages (zone_free t ptr 0))
zone_free-zone_alloc_example = zone_free-zone_alloc 0 two_pages-IsZone (omega arith) (omega arith)
