-- ===== src/Tasks/Choices.antt =====
-- kernel/src/proc/scheduler.c: the task that `scheduler` chooses.
use beeos.Prelude.{
  ℕ, zero, suc, ◌<◌, ◌≡◌, refl, ap, ◌∙◌, ◌⊎◌, inl, inr, true, false, Bool-cases, some, List, [],
  ◌∷◌, ◌++◌, append_assoc, length, All, arith, ◌==◌,
}
use beeos.Links.Rings.{IsRing}
use beeos.Links.Middle.{front, next-front, next-head, ne-head}
use beeos.Tasks.{Tasks, is_running, next_task, scheduler, switch_to}

-- The first task of `xs` that is running.
pub record First (s : Tasks) (xs : List ℕ) (t : ℕ) : Type 0 where
  pub passed : List ℕ
  pub later : List ℕ
  pub parts : xs ≡ passed ++ (t ∷ later)
  pub idle : All (λ q. is_running (s.state q) ≡ false) passed
  pub runs : is_running (s.state t) ≡ true

-- Where the loop stops: at that task, or at the current one again.
abbrev pub Choice : Tasks → List ℕ → ℕ → Type 0
Choice s xs t = First s xs t ⊎ (All (λ q. is_running (s.state q) ≡ false) xs × (t ≡ s.current))

record Stops (fuel : ℕ) (s : Tasks) (ys : List ℕ) : Type 0 where
  at : ℕ
  stops : next_task fuel s (front s.current ys) ≡ some at
  choice : Choice s ys at

Choice-skip :
    (s : Tasks) (y : ℕ) (ys : List ℕ) (t : ℕ)
    → is_running (s.state y) ≡ false
    → Choice s ys t
    → Choice s (y ∷ ys) t
Choice-skip s y ys t idle (inl f) = inl (record {
  passed = y ∷ f.passed;
  later = f.later;
  parts = ap (λ l. y ∷ l) f.parts;
  idle = (idle, f.idle);
  runs = f.runs;
})
Choice-skip s y ys t idle (inr (all, e)) = inr ((idle, all), e)

next_task-Stops :
    (fuel : ℕ) (s : Tasks) (xs ys : List ℕ)
    → IsRing s.tasks s.current (xs ++ ys)
    → length ys < fuel
    → Stops fuel s ys
unfolding next_task
next_task-Stops zero s xs ys r l = absurd (omega (arith, l))
next_task-Stops (suc n) s xs [] r l = record {
  at = s.current;
  stops = ground arith;
  choice = inr (tt, refl);
}
next_task-Stops (suc n) s xs (y ∷ ys) r l = elim (Bool-cases (is_running (s.state y))) [
  | inl runs ↦ record {
    at = y;
    stops = rw runs refl;
    choice = inl (record { passed = []; later = ys; parts = refl; idle = tt; runs = runs });
  }
  | inr idle ↦
      let rest = next_task-Stops n s (xs ++ (y ∷ [])) ys (rw append_assoc r) (omega (arith, l)) in
      let ne = ne-head s.tasks s.current xs y ys r in
      let away : (y == s.current) ≡ false = ground (arith, ne) in
      let next = next-front s.tasks s.current xs y ys r in
      let step : next_task n s (s.tasks.next y) ≡ some rest.at =
        ap (next_task n s) next ∙ rest.stops in
      record {
        at = rest.at;
        stops = rw (idle, away) step;
        choice = Choice-skip s y ys rest.at idle rest.choice;
      }
]

-- What `scheduler` has chosen among the other tasks `xs` of the ring.
pub record Scheduled (fuel timer_ticks : ℕ) (s : Tasks) (xs : List ℕ) : Type 0 where
  pub result : Tasks
  pub schedules : scheduler fuel timer_ticks s ≡ some result
  pub ring : result.tasks ≡ s.tasks
  pub choice :
      (First s xs result.current × (result.state ≡ s.state))
      ⊎ (All (λ q. is_running (s.state q) ≡ false) xs × (result.current ≡ s.ktask))

switch_to-tasks : (k next : ℕ) (s : Tasks) → (switch_to k next s).tasks ≡ s.tasks
switch_to-tasks k next s = elim (Bool-cases (next == s.current)) [
  | inl same ↦ rw same refl
  | inr differ ↦ rw differ refl
]

-- The choice of the loop, once the switch to the task that idles is made.
switch_to-Choice :
    (k next : ℕ) (s : Tasks) (xs : List ℕ)
    → IsRing s.tasks s.current xs
    → Choice s xs next
    → (First s xs (switch_to k next s).current × ((switch_to k next s).state ≡ s.state))
      ⊎ (All (λ q. is_running (s.state q) ≡ false) xs × ((switch_to k next s).current ≡ s.ktask))
switch_to-Choice k next s xs r (inl f) =
    let ne = ne-head s.tasks s.current f.passed next f.later (rw f.parts at r) in
    let differ : (next == s.current) ≡ false = ground (arith, ne) in
    let current : (switch_to k next s).current ≡ next = rw differ refl in
    inl ((rw current f), (rw differ refl))
switch_to-Choice k next s xs r (inr (all, e)) =
    let same : (next == s.current) ≡ true = ground (arith, e) in inr (all, (rw same refl))

-- With more rounds than there are other tasks on the ring, `scheduler` ends, and the current task is
-- the first running one behind the last, or the task that idles where no other one is running.
pub scheduler-Scheduled :
    (fuel timer_ticks : ℕ) (s : Tasks) (xs : List ℕ)
    → IsRing s.tasks s.current xs
    → length xs < fuel
    → Scheduled fuel timer_ticks s xs
unfolding scheduler
scheduler-Scheduled fuel timer_ticks s xs r l =
    let at = next_task-Stops fuel s [] xs r l in
    let head = next-head s.tasks s.current xs r in
    let step : next_task fuel s (s.tasks.next s.current) ≡ some at.at =
      ap (next_task fuel s) head ∙ at.stops in
    let schedules : scheduler fuel timer_ticks s ≡ some (switch_to timer_ticks at.at s) =
      rw (step, scheduler) refl in
    record {
      result = switch_to timer_ticks at.at s;
      schedules = schedules;
      ring = switch_to-tasks timer_ticks at.at s;
      choice = switch_to-Choice timer_ticks at.at s xs r at.choice;
    }
