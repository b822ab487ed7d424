-- ===== src/Tasks/Waits.antt =====
-- kernel/src/sync/cond.c: tasks that wait for a condition and are woken.
use beeos.Prelude.{
  ℕ, zero, suc, ◌<◌, ◌≡◌, refl, ap, ◌∙◌, Bool, true, false, Option, some, List, [], ◌∷◌, ◌++◌,
  length, All, arith, ◌==◌, if◌then◌else◌,
}
use beeos.Links.{list_delete, list_empty}
use beeos.Links.Rings.{IsRing, Fresh, Distinct}
use beeos.Links.Inserts.{insert_before-IsRing}
use beeos.Links.Deletes.{delete-IsRing}
use beeos.Links.Middle.{next-head, ne-head}
use beeos.Signals.{running, sleeping}
use beeos.Tasks.{Tasks, set_state, cond_wait, cond_signal, cond_broadcast}

-- The first task that waits is woken, and the others still wait.
cond_signal-first :
    (queue : ℕ) (s : Tasks) (x : ℕ) (xs : List ℕ)
    → IsRing s.condw queue (x ∷ xs)
    → cond_signal queue s ≡ set_state x running (record s { condw = list_delete x s.condw })
unfolding cond_signal list_empty
cond_signal-first queue s x xs r =
    let head = next-head s.condw queue (x ∷ xs) r in
    let ne = ne-head s.condw queue [] x xs r in
    let waits : (x == queue) ≡ false = ground (arith, ne) in rw (head, waits) refl

if-false : (b : Bool) (x y : Option Tasks) → b ≡ false → (if b then x else y) ≡ y
if-false b x y e = rw e refl

-- What waking all tasks `xs` of a queue has done.
pub record Woken (fuel queue : ℕ) (s : Tasks) (xs : List ℕ) : Type 0 where
  pub result : Tasks
  pub wakes : cond_broadcast fuel queue s ≡ some result
  pub queue_ring : IsRing result.condw queue []
  pub woken : All (λ t. result.state t ≡ running) xs
  pub others : (q : ℕ) → Fresh q xs → result.state q ≡ s.state q

-- With more rounds than there are tasks on the queue, `cond_broadcast` ends with an empty queue,
-- makes all of them running, and changes the state of no other task.
pub cond_broadcast-Woken :
    (fuel queue : ℕ) (s : Tasks) (xs : List ℕ)
    → IsRing s.condw queue xs
    → length xs < fuel
    → Woken fuel queue s xs
unfolding cond_broadcast list_empty Distinct
cond_broadcast-Woken zero queue s xs r l = absurd (omega (arith, l))
cond_broadcast-Woken (suc n) queue s [] r l =
    let head = next-head s.condw queue [] r in
    let ended : (s.condw.next queue == queue) ≡ true = ground (arith, head) in
    record { result = s; wakes = rw ended refl; queue_ring = r; woken = tt; others = λ q f. refl }
cond_broadcast-Woken (suc n) queue s (x ∷ xs) r l =
    let s1 = set_state x running (record s { condw = list_delete x s.condw }) in
    let first = cond_signal-first queue s x xs r in
    let w =
      cond_broadcast-Woken n queue s1 xs (delete-IsRing s.condw queue [] x xs r).0
        (omega (arith, l)) in
    let head = next-head s.condw queue (x ∷ xs) r in
    let ne = ne-head s.condw queue [] x xs r in
    let waits : (s.condw.next queue == queue) ≡ false = ground (arith, head, ne) in
    let step : cond_broadcast n queue (cond_signal queue s) ≡ some w.result =
      ap (cond_broadcast n queue) first ∙ w.wakes in
    let stays = w.others x (r.distinct.1.0) in
    let runs : s1.state x ≡ running = ground arith in
    record {
      result = w.result;
      wakes = if-false (s.condw.next queue == queue) _ _ waits ∙ step;
      queue_ring = w.queue_ring;
      woken = (stays ∙ runs, w.woken);
      others = λ q f.
          let ne' = f.0 in
          let same : s1.state q ≡ s.state q = ground (arith, ne') in w.others q f.1 ∙ same;
    }

-- A task that waits comes behind those that do already, and `cond_signal` wakes the one in front:
-- with tasks on the queue and the current one not among them, the two calls leave the others and then
-- the current one on it; the one in front is running, and the current one sleeps.
pub cond_signal-cond_wait :
    (queue : ℕ) (s : Tasks) (x : ℕ) (xs : List ℕ)
    → IsRing s.condw queue (x ∷ xs)
    → Fresh s.current (queue ∷ x ∷ xs)
    → IsRing (cond_signal queue (cond_wait queue s)).condw queue (xs ++ (s.current ∷ []))
      × ((cond_signal queue (cond_wait queue s)).state x ≡ running)
      × ((cond_signal queue (cond_wait queue s)).state s.current ≡ sleeping)
unfolding cond_wait
cond_signal-cond_wait queue s x xs r f =
    let waits = cond_wait queue s in
    let ring = insert_before-IsRing s.condw queue s.current (x ∷ xs) r f in
    let first = cond_signal-first queue waits x (xs ++ (s.current ∷ [])) ring in
    let ne = f.1.0 in
    let result = set_state x running (record waits { condw = list_delete x waits.condw }) in
    let wakes : result.state x ≡ running = ground arith in
    let sleeps : result.state s.current ≡ sleeping = ground (arith, ne) in
    rw first ((delete-IsRing waits.condw queue [] x (xs ++ (s.current ∷ [])) ring).0, wakes, sleeps)
