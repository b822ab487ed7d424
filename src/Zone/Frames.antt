-- ===== src/Zone/Frames.antt =====
-- `frame_alloc` of kernel/src/mm/frame.c over the list of zones.
use Prim.Native.Nat.{bit_and}
use beeos.Prelude.{
  ℕ, ◌<◌, ◌≡◌, refl, ap, ◌≢◌, ◌⊎◌, inl, inr, true, false, List, [], ◌∷◌, ◌++◌, arith, ◌==◌,
  if◌then◌else◌, Bool-cases, All,
}
use beeos.Zone.{Zone, zone_alloc, frame_alloc}
use beeos.Zone.RoundTrip.{IsZone, Got, Gets, zone_alloc-Gets}

-- A zone of some number of frames that does not begin at address 0.
pub record IsMemory (z : Zone) : Type 0 where
  pub frames : ℕ
  pub zone : IsZone frames z
  pub based : 0 < z.addr

-- One zone of the list, with the flags that were asked for, has handed the pointer out, and the
-- others are as they were.
pub record Served (zs : List Zone) (order flags ptr : ℕ) (zs' : List Zone) : Type 0 where
  pub before : List Zone
  pub from : Zone
  pub after : List Zone
  pub frames : ℕ
  pub changed : Zone
  pub split : zs ≡ before ++ from ∷ after
  pub result : zs' ≡ before ++ changed ∷ after
  pub flagged : (bit_and from.flags flags == flags) ≡ true
  pub got : Got frames from order ptr changed
  pub ne_null : ptr ≢ 0

Served-cons :
    (z : Zone) (zs : List Zone) (order flags ptr : ℕ) (zs' : List Zone)
    → Served zs order flags ptr zs'
    → Served (z ∷ zs) order flags ptr (z ∷ zs')
Served-cons z zs order flags ptr zs' s = record {
  before = z ∷ s.before;
  from = s.from;
  after = s.after;
  frames = s.frames;
  changed = s.changed;
  split = ap (λ l. z ∷ l) s.split;
  result = ap (λ l. z ∷ l) s.result;
  flagged = s.flagged;
  got = s.got;
  ne_null = s.ne_null;
}

abbrev pub Serves : List Zone → ℕ → ℕ → ℕ × List Zone → Type 0
Serves zs order flags (ptr, zs') = ((ptr ≡ 0) × (zs' ≡ zs)) ⊎ Served zs order flags ptr zs'

Serves-cons :
    (z z' : Zone) (zs : List Zone) (order flags : ℕ) (r : ℕ × List Zone)
    → z' ≡ z
    → Serves zs order flags r
    → Serves (z ∷ zs) order flags (r.0, z' ∷ r.1)
Serves-cons z z' zs order flags r e (inl (n, same)) = inl (n, rw (e, same))
Serves-cons z z' zs order flags r e (inr s) = inr (rw e (Served-cons z zs order flags r.0 r.1 s))

-- `frame_alloc` returns NULL and leaves every zone as it was, or one zone whose flags include those
-- asked for hands out a block of the order, and the others stay as they were.
pub frame_alloc-Serves :
    (order flags : ℕ) (zs : List Zone)
    → All IsMemory zs
    → Serves zs order flags (frame_alloc order flags zs)
unfolding frame_alloc
frame_alloc-Serves order flags [] m = inl (refl, refl)
frame_alloc-Serves order flags (z ∷ zs) (mz, ms) =
    elim (Bool-cases (bit_and z.flags flags == flags)) [
      | inr out ↦
          rw out (Serves-cons z z zs order flags _ refl (frame_alloc-Serves order flags zs ms))
      | inl fits ↦ rw fits (
          go (zone_alloc z order) (zone_alloc-Gets order mz.zone) fits (frame_alloc order flags zs)
            (frame_alloc-Serves order flags zs ms))
    ]
  where
    go :
        (r : ℕ × Zone)
        → Gets mz.frames z order r
        → (bit_and z.flags flags == flags) ≡ true
        → (later : ℕ × List Zone) → Serves zs order flags later
        → Serves
            (z ∷ zs)
            order
            flags
            (if r.0 == 0 then (later.0, r.1 ∷ later.1) else (r.0, r.1 ∷ zs))
    go (ptr, t) (vt, inl (n, same)) fits later s =
        let n' : (ptr == 0) ≡ true = ground arith in
        rw n' (Serves-cons z t zs order flags later same s)
    go (ptr, t) (vt, inr g) fits later s =
        let pos : ptr ≢ 0 = λ e. absurd (omega (arith, g.at, mz.based)) in
        let n' : (ptr == 0) ≡ false = ground arith in
        rw n' (
          inr (record {
            before = [];
            from = z;
            after = zs;
            frames = mz.frames;
            changed = t;
            split = refl;
            result = refl;
            flagged = fits;
            got = g;
            ne_null = pos;
          }))
