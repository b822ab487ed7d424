-- ===== src/Timers/Expiry.antt =====
-- kernel/src/timer.c: `timer_update` takes the events off the queue whose time has come, and calls
-- their functions.
use beeos.Prelude.{
  ℕ, zero, suc, ◌≤◌, ◌<◌, ◌≡◌, refl, ap, ◌∙◌, some, List, [], ◌∷◌, ◌++◌, append_assoc, length, All,
  All-both, arith, leb, Bool-cases, inl, inr,
}
use beeos.Links.{Links, list_delete}
use beeos.Links.Rings.{IsRing}
use beeos.Links.Deletes.{delete-IsRing}
use beeos.Links.Middle.{front, next-front, next-head, ne-head}
use beeos.Timers.{
  Timers, Handler, no_handler, alarm_handler, sleep_timer_handler, call, fire, timer_walk, account,
  timer_update,
}
use beeos.Timers.Inserts.{Sorted, IsQueue}

-- The functions of the events `xs`, called one after the other.
pub called : List ℕ → Timers → Timers
unfolding call
called [] s = s
called (x ∷ xs) s = called xs (call (s.func x) (s.data_of x) s)

-- The functions that events call do not depend on the queue and leave it as it is.
call-links :
    (f : Handler) (t : ℕ) (s : Timers) (l : Links)
    → call f t (record s { links = l }) ≡ record (call f t s) { links = l }
unfolding call
call-links no_handler t s l = refl
call-links alarm_handler t s l = refl
call-links sleep_timer_handler t s l = refl

call-keeps :
    (f : Handler) (t : ℕ) (s : Timers)
    → call f t s ≡ record s { plinks = (call f t s).plinks; tasks = (call f t s).tasks }
unfolding call
call-keeps no_handler t s = refl
call-keeps alarm_handler t s = refl
call-keeps sleep_timer_handler t s = refl

called-links :
    (xs : List ℕ) (s : Timers) (l : Links)
    → called xs (record s { links = l }) ≡ record (called xs s) { links = l }
unfolding called
called-links [] s l = refl
called-links (x ∷ xs) s l =
    ap (called xs) (call-links (s.func x) (s.data_of x) s l)
    ∙ called-links xs (call (s.func x) (s.data_of x) s) l

-- An event that is later than now stays, and so do all behind it.
walk-later :
    (fuel : ℕ) (s : Timers) (xs ys : List ℕ)
    → IsRing s.links s.events (xs ++ ys)
    → All (λ y. s.timer_ticks < s.expires y) ys
    → length ys < fuel
    → timer_walk fuel s (front s.events ys) ≡ some s
unfolding timer_walk
walk-later zero s xs ys r b l = absurd (omega (arith, l))
walk-later (suc n) s xs [] r b l = ground arith
walk-later (suc n) s xs (y ∷ ys) r (lt, b) l =
    let ne = ne-head s.links s.events xs y ys r in
    let next = next-front s.links s.events xs y ys r in
    let rest = walk-later n s (xs ++ (y ∷ [])) ys (rw append_assoc r) b (omega (arith, l)) in
    let step : timer_walk n s (s.links.next y) ≡ some s = rw next rest in
    ground (arith, ne, lt, step)

record Walked (fuel : ℕ) (s : Timers) (xs : List ℕ) : Type 0 where
  due : List ℕ
  pending : List ℕ
  parts : xs ≡ due ++ pending
  result : Timers
  walks : timer_walk fuel s (front s.events xs) ≡ some result
  queue : IsQueue result pending
  past : All (λ x. s.expires x ≤ s.timer_ticks) due
  future : All (λ x. s.timer_ticks < s.expires x) pending
  rest : result ≡ record (called due s) { links = result.links }

-- The memory after an event was fired.
pub fire-keeps :
    (x : ℕ) (s : Timers)
    → fire x s ≡ record s {
      links = list_delete x s.links;
      plinks = (call (s.func x) (s.data_of x) s).plinks;
      tasks = (call (s.func x) (s.data_of x) s).tasks;
    }
unfolding fire
fire-keeps x s =
    call-links (s.func x) (s.data_of x) s (list_delete x s.links)
    ∙ ap (λ (t : Timers). record t { links = list_delete x s.links })
        (call-keeps (s.func x) (s.data_of x) s)

called-fire :
    (x : ℕ) (xs : List ℕ) (s : Timers) (l : Links)
    → record (called xs (fire x s)) { links = l } ≡ record (called (x ∷ xs) s) { links = l }
unfolding called fire
called-fire x xs s l =
    let d = list_delete x s.links in
    ap (λ (t : Timers). record t { links = l })
      (ap (called xs) (call-links (s.func x) (s.data_of x) s d)
        ∙ called-links xs (call (s.func x) (s.data_of x) s) d)

fire-IsQueue : (x : ℕ) (xs : List ℕ) (s : Timers) → IsQueue s (x ∷ xs) → IsQueue (fire x s) xs
unfolding Sorted
fire-IsQueue x xs s q =
    rw (fire-keeps x s)
      (record { ring = (delete-IsRing s.links s.events [] x xs q.ring).0; sorted = q.sorted.1 })

-- The rounds after the one that fires the first event.
walk-fire :
    (n : ℕ) (s : Timers) (x : ℕ) (xs : List ℕ)
    → IsQueue s (x ∷ xs)
    → s.expires x ≤ s.timer_ticks
    → Walked n (fire x s) xs
    → Walked (suc n) s (x ∷ xs)
unfolding timer_walk
walk-fire n s x xs q due w =
    let keeps = fire-keeps x s in
    let ev : (fire x s).events ≡ s.events = ap (λ (t : Timers). t.events) keeps in
    let ne = ne-head s.links s.events [] x xs q.ring in
    let next = next-front s.links s.events [] x xs q.ring in
    let from_next : timer_walk n (fire x s) (front s.events xs) ≡ some w.result =
      rw ev at w.walks in
    let step : timer_walk n (fire x s) (s.links.next x) ≡ some w.result =
      ap (timer_walk n (fire x s)) next ∙ from_next in
    record {
      due = x ∷ w.due;
      pending = w.pending;
      parts = ap (λ l. x ∷ l) w.parts;
      result = w.result;
      walks = ground (arith, ne, due, step);
      queue = w.queue;
      past = (due, rw keeps at w.past);
      future = rw keeps at w.future;
      rest = w.rest ∙ called-fire x w.due s w.result.links;
    }

walk-Walked :
    (fuel : ℕ) (s : Timers) (xs : List ℕ) → IsQueue s xs → length xs < fuel → Walked fuel s xs
unfolding timer_walk Sorted called
walk-Walked zero s xs q l = absurd (omega (arith, l))
walk-Walked (suc n) s [] q l = record {
  due = [];
  pending = [];
  parts = refl;
  result = s;
  walks = ground arith;
  queue = q;
  past = tt;
  future = tt;
  rest = refl;
}
walk-Walked (suc n) s (x ∷ xs) q l = elim (Bool-cases (leb (s.expires x) s.timer_ticks)) [
  | inl is_due ↦
      walk-fire n s x xs q (ground (arith, is_due))
        (walk-Walked n (fire x s) xs (fire-IsQueue x xs s q) (omega (arith, l)))
  | inr is_pending ↦
      let lt : s.timer_ticks < s.expires x = ground (arith, is_pending) in
      let future : All (λ y. s.timer_ticks < s.expires y) (x ∷ xs) =
        (lt, All-both (λ y le le2. omega (arith, lt, le)) xs q.sorted.0 q.sorted.0) in
      record {
        due = [];
        pending = x ∷ xs;
        parts = refl;
        result = s;
        walks = walk-later (suc n) s [] (x ∷ xs) q.ring future l;
        queue = q;
        past = tt;
        future = future;
        rest = refl;
      }
]

-- What `timer_update` has done to the queue of the events `xs`.
pub record Updated (fuel : ℕ) (s : Timers) (xs : List ℕ) : Type 0 where
  pub due : List ℕ
  pub pending : List ℕ
  pub parts : xs ≡ due ++ pending
  pub result : Timers
  pub updates : timer_update fuel s ≡ some result
  pub queue : IsQueue result pending
  pub past : All (λ x. s.expires x ≤ s.timer_ticks) due
  pub future : All (λ x. s.timer_ticks < s.expires x) pending
  pub rest : result ≡ account (record (called due s) { links = result.links })

-- On a queue of alarms and sleeps, without the event of `refresh_func`, and with more rounds than it has
-- events, `timer_update` ends: the events whose time
-- has come are off the queue, the others are still on it in their order, the functions of the former
-- were called in the order of their expiration times, and the time slice of the task is counted.
pub timer_update-Updated :
    (fuel : ℕ) (s : Timers) (xs : List ℕ) → IsQueue s xs → length xs < fuel → Updated fuel s xs
unfolding timer_update account
timer_update-Updated fuel s xs q l =
    let w = walk-Walked fuel s xs q l in
    let head = next-head s.links s.events xs q.ring in
    let walks : timer_walk fuel s (s.links.next s.events) ≡ some w.result =
      ap (timer_walk fuel s) head ∙ w.walks in
    record {
      due = w.due;
      pending = w.pending;
      parts = w.parts;
      result = account w.result;
      updates = rw (walks, timer_update) refl;
      queue = record { ring = w.queue.ring; sorted = w.queue.sorted };
      past = w.past;
      future = w.future;
      rest = ap account w.rest;
    }
