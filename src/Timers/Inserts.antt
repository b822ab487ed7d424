-- ===== src/Timers/Inserts.antt =====
-- kernel/src/timer.c: `timer_event_add` keeps the queue in the order of the expiration times.
use beeos.Prelude.{
  ℕ, zero, suc, ◌≤◌, ◌<◌, ◌≡◌, refl, ap, some, List, [], ◌∷◌, ◌++◌, append_assoc, length, All,
  All-append, All-both, arith, Bool-cases, inl, inr, ltb,
}
use beeos.Links.{list_insert_before}
use beeos.Links.Rings.{IsRing, Fresh}
use beeos.Links.Middle.{front, next-front, next-head, ne-head, insert_before-middle}
use beeos.Timers.{Timers, find_later, timer_event_add}

-- No event stands behind a later one.
unfoldable pub Sorted : (ℕ → ℕ) → List ℕ → Type 0
Sorted e [] = Unit
Sorted e (x ∷ xs) = All (λ y. e x ≤ e y) xs × Sorted e xs

-- The events of the queue, in their order.
pub record IsQueue (s : Timers) (xs : List ℕ) : Type 0 where
  pub ring : IsRing s.links s.events xs
  pub sorted : Sorted s.expires xs

-- Where the loop of `timer_event_add` stops: `passed` and `later` are the two parts of `xs`.
record Stops (fuel : ℕ) (s : Timers) (tm curr : ℕ) (xs : List ℕ) : Type 0 where
  passed : List ℕ
  later : List ℕ
  parts : xs ≡ passed ++ later
  stops : find_later fuel s tm curr ≡ some (front s.events later)
  sooner : All (λ x. s.expires x ≤ s.expires tm) passed
  after : All (λ x. s.expires tm < s.expires x) later

find_later-Stops :
    (fuel : ℕ) (s : Timers) (tm : ℕ) (xs ys : List ℕ)
    → IsRing s.links s.events (xs ++ ys)
    → Sorted s.expires ys
    → length ys < fuel
    → Stops fuel s tm (front s.events ys) ys
unfolding find_later Sorted
find_later-Stops zero s tm xs ys r o l = absurd (omega (arith, l))
find_later-Stops (suc n) s tm xs [] r o l = record {
  passed = [];
  later = [];
  parts = refl;
  stops = ground arith;
  sooner = tt;
  after = tt;
}
find_later-Stops (suc n) s tm xs (y ∷ ys) r (oy, o) l =
    elim (Bool-cases (ltb (s.expires tm) (s.expires y))) [
      | inl is_later ↦
          let lt : s.expires tm < s.expires y = ground (arith, is_later) in
          record {
            passed = [];
            later = y ∷ ys;
            parts = refl;
            stops = ground (arith, is_later);
            sooner = tt;
            after = (lt, All-both (λ z le le2. omega (arith, lt, le)) ys oy oy);
          }
      | inr is_sooner ↦
          let rest =
            find_later-Stops n s tm (xs ++ (y ∷ [])) ys (rw append_assoc r) o (omega (arith, l)) in
          let ne = ne-head s.links s.events xs y ys r in
          let next = next-front s.links s.events xs y ys r in
          let step : find_later n s tm (s.links.next y) ≡ some (front s.events rest.later) =
            rw next rest.stops in
          record {
            passed = y ∷ rest.passed;
            later = rest.later;
            parts = ap (λ l. y ∷ l) rest.parts;
            stops = ground (arith, is_sooner, ne, step);
            sooner = (ground (arith, is_sooner), rest.sooner);
            after = rest.after;
          }
    ]

All-front : (P : ℕ → Type 0) (xs ys : List ℕ) → All P (xs ++ ys) → All P xs
All-front P [] ys a = tt
All-front P (x ∷ xs) ys (p, a) = (p, All-front P xs ys a)

Sorted-insert :
    (e : ℕ → ℕ) (n : ℕ) (xs ys : List ℕ)
    → Sorted e (xs ++ ys)
    → All (λ x. e x ≤ e n) xs
    → All (λ y. e n < e y) ys
    → Sorted e (xs ++ (n ∷ ys))
unfolding Sorted
Sorted-insert e n [] ys o f b = (All-both (λ y lt lt2. omega (arith, lt)) ys b b, o)
Sorted-insert e n (x ∷ xs) ys (ox, o) (le, f) b = (
  All-append (λ y. e x ≤ e y) xs (n ∷ ys) (All-front (λ y. e x ≤ e y) xs ys ox)
      (le, All-both (λ y lt lt2. omega (arith, le, lt)) ys b b),
  Sorted-insert e n xs ys o f b,
)

-- What the queue is once the event `tm` was put on it.
pub record Added (fuel : ℕ) (s : Timers) (tm : ℕ) (xs : List ℕ) : Type 0 where
  pub passed : List ℕ
  pub later : List ℕ
  pub parts : xs ≡ passed ++ later
  pub result : Timers
  pub adds : timer_event_add fuel tm s ≡ some result
  pub queue : IsQueue result (passed ++ (tm ∷ later))
  pub sooner : All (λ x. s.expires x ≤ s.expires tm) passed
  pub after : All (λ x. s.expires tm < s.expires x) later
  pub rest : result ≡ record s { links = result.links }

-- With more rounds than there are events on the queue, `timer_event_add` puts an event that is not
-- on the queue behind all that expire no later and in front of all that expire later, so that the
-- queue stays in the order of the expiration times, and changes nothing else.
pub timer_event_add-Added :
    (fuel : ℕ) (s : Timers) (tm : ℕ) (xs : List ℕ)
    → IsQueue s xs
    → Fresh tm (s.events ∷ xs)
    → length xs < fuel
    → Added fuel s tm xs
unfolding timer_event_add
timer_event_add-Added fuel s tm xs q fresh l =
    let at = find_later-Stops fuel s tm [] xs q.ring q.sorted l in
    let head = next-head s.links s.events xs q.ring in
    record {
      passed = at.passed;
      later = at.later;
      parts = at.parts;
      result = record s { links = list_insert_before (front s.events at.later) tm s.links };
      adds = rw (head, at.stops);
      queue = record {
        ring =
            insert_before-middle s.links s.events tm at.passed at.later (rw at.parts at q.ring)
              (rw at.parts at fresh);
        sorted =
            Sorted-insert s.expires tm at.passed at.later (rw at.parts at q.sorted) at.sooner
              at.after;
      };
      sooner = at.sooner;
      after = at.after;
      rest = refl;
    }
