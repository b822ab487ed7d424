-- ===== src/Zone.antt =====
-- kernel/src/mm/zone.c and kernel/src/mm/frame.c: memory zones with reference-counted frames, and
-- the list of zones that `frame_alloc` and `frame_free` search. A pointer is its address, NULL is 0.
pub mod Frames
pub mod Within
pub mod RoundTrip
mod Tests
use Prim.Native.Nat.{bit_and}
use beeos.Prelude.{
  ℕ, ◌+◌, ◌-◌, ◌*◌, ◌/◌, ◌%◌, ◌^◌, Bool, true, false, ◌&&◌, none, some, List, [], ◌∷◌, leb, ltb,
  ◌==◌, if◌then◌else◌, set, get_or,
}
use beeos.Buddy.{Buddy, alloc, free}

-- `struct zone_st`, without the fields that nothing reads.
pub record Zone : Type 0 where
  pub addr : ℕ
  pub size : ℕ
  pub frame_size : ℕ
  pub flags : ℕ
  pub buddy : Buddy

-- `frames[i].refs`
abbrev pub refs_at : Buddy → ℕ → ℕ
refs_at s i = get_or s.refs i 0

abbrev pub set_refs : Buddy → ℕ → ℕ → Buddy
set_refs s i r = record s { refs = set s.refs i r }

pub zone_alloc : Zone → ℕ → ℕ × Zone
zone_alloc z order =
    let (frm, s) = alloc z.buddy order in
    elim frm [
      | none ↦ (0, z)
      | some i ↦ (z.addr + z.frame_size * i, record z { buddy = set_refs s i (refs_at s i + 1) })
    ]

pub zone_free : Zone → ℕ → ℕ → Zone
zone_free z ptr order =
    let i = (ptr - z.addr) / z.frame_size in
    let s = z.buddy in
    if ltb 0 (refs_at s i)
    then (let s' = set_refs s i (refs_at s i - 1) in
        record z { buddy = if refs_at s i - 1 == 0 then free s' i order else s' })
    else z

-- Addresses are 32 bits wide, and so are the sums.
unfoldable pub is_within : ℕ → ℕ → ℕ → ℕ → Bool
is_within b1 sz1 b2 sz2 =
    let e1 = (b1 + sz1 + 2 ^ 32 - 1) % 2 ^ 32 in
    let e2 = (b2 + sz2 + 2 ^ 32 - 1) % 2 ^ 32 in
    if sz1 == 0
    then (b1 == b2) && (sz2 == 0)
    else (if sz2 == 0 then leb b1 b2 && leb b2 e1 else leb b1 b2 && leb e2 e1)

-- `zone_list` is the list of zones. The result is the pointer and the list with the zone changed.
pub frame_alloc : ℕ → ℕ → List Zone → ℕ × List Zone
unfolding zone_alloc
frame_alloc order flags [] = (0, [])
frame_alloc order flags (z ∷ zs) =
    let (ptr, z') = zone_alloc z order in
    let (later, zs') = frame_alloc order flags zs in
    if bit_and z.flags flags == flags
    then (if ptr == 0 then (later, z' ∷ zs') else (ptr, z' ∷ zs))
    else (later, z ∷ zs')

-- Whether `frame_free` takes the block to lie in the zone.
abbrev pub holds : Zone → ℕ → ℕ → Bool
holds z ptr order =
    leb order z.buddy.order_max
    && is_within z.addr z.size ptr (2 ^ (order + z.buddy.order_bit) % 2 ^ 32)

free_in : ℕ → ℕ → List Zone → List Zone
unfolding zone_free
free_in ptr order [] = []
free_in ptr order (z ∷ zs) =
    let rest = free_in ptr order zs in
    if holds z ptr order then zone_free z ptr order ∷ zs else z ∷ rest

pub frame_free : ℕ → ℕ → List Zone → List Zone
unfolding free_in
frame_free ptr order zs = if ptr == 0 then zs else free_in ptr order zs
