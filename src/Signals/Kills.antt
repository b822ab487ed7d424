-- ===== src/Signals/Kills.antt =====
-- Sending a signal: kernel/src/proc/task.c, kernel/src/sys/sys_kill.c, and the signals that
-- kernel/src/sys/sys_sigaction.c leaves alone.
use beeos.Prelude.{
  ℕ, ◌≤◌, ◌<◌, ◌≡◌, refl, ◌≢◌, ap, inl, inr, Bool, true, false, ◌||◌, Option, some, List, [], ◌∷◌,
  ◌++◌, All, arith, leb, ltb, ◌==◌, Bool-cases,
}
use beeos.Prelude.Int.{ℤ, pos, negsuc}
use beeos.Signals.Masks.{is_member_bit}
use beeos.Signals.Deliveries.{Pops, lowest, nobody, sigpop-Pops}
use beeos.Signals.{
  SigSet, in_nsig, sigaddset, sigdelset, is_member, Task, sleeping, task_signal, wake, deliverable,
  sigpop, deliver, do_signal, popped_signal, kill, kill_in,
}

pub sigpend-task_signal :
    (t : Task) (sig : ℕ) → (task_signal t sig).sigpend ≡ sigaddset t.sigpend sig
unfolding task_signal wake
sigpend-task_signal t sig = ground arith

pub sigmask-task_signal : (t : Task) (sig : ℕ) → (task_signal t sig).sigmask ≡ t.sigmask
unfolding task_signal wake
sigmask-task_signal t sig = ground arith

pub signals-task_signal : (t : Task) (sig : ℕ) → (task_signal t sig).signals ≡ t.signals
unfolding task_signal wake
signals-task_signal t sig = ground arith

state-task_signal :
    (t : Task) (sig : ℕ) → is_member t.sigmask sig ≡ false → (task_signal t sig).state ≢ sleeping
unfolding task_signal wake
state-task_signal t sig e s = ground arith

-- A signal that was sent and is not masked can be delivered.
pub deliverable-task_signal :
    (t : Task) (sig : ℕ)
    → in_nsig sig ≡ true
    → is_member t.sigmask sig ≡ false
    → deliverable (task_signal t sig).sigpend (task_signal t sig).sigmask sig ≡ true
unfolding sigaddset
deliverable-task_signal t sig r m =
    rw (sigpend-task_signal t sig, sigmask-task_signal t sig)
      (ground (arith, is_member_bit (sigaddset t.sigpend sig) sig))

-- The first signal that is delivered.
abbrev pub without : Task → ℕ → Task
without t sig = record t { sigpend = sigdelset t.sigpend sig }

-- `do_signal` delivers the lowest signal that can be delivered.
pub do_signal-lowest :
    (memory : Bool) (t : Task) (sig : ℕ)
    → deliverable t.sigpend t.sigmask sig ≡ true
    → (low : ℕ) × (low ≤ sig)
      × (deliverable t.sigpend t.sigmask low ≡ true)
      × (do_signal memory t ≡ deliver memory (without t low) low)
unfolding do_signal
do_signal-lowest memory t sig d =
    of_popped (sigpop t.sigpend t.sigmask) (sigpop-Pops t.sigpend t.sigmask)
  where
    bounded :
        (low : ℕ) → ((k : ℕ) → k < low → deliverable t.sigpend t.sigmask k ≡ false) → low ≤ sig
    bounded low below = elim (Bool-cases (leb low sig)) [
      | inl le ↦ ground arith
      | inr lt ↦ let no_sig = below sig (ground arith) in absurd (ground arith)
    ]

    nonzero :
        (low : ℕ)
        → deliverable t.sigpend t.sigmask low ≡ true
        → popped_signal memory t (some low, sigdelset t.sigpend low)
          ≡ deliver memory (without t low) low
    nonzero low at =
        let z : (low == 0) ≡ false = ground (arith, is_member_bit t.sigpend low) in
        rw (z, popped_signal) refl

    of_popped :
        (r : Option ℕ × SigSet)
        → Pops t.sigpend t.sigmask r
        → (low : ℕ) × (low ≤ sig)
          × (deliverable t.sigpend t.sigmask low ≡ true)
          × (popped_signal memory t r ≡ deliver memory (without t low) low)
    of_popped r (lowest low at below) = (low, bounded low below, at, nonzero low at)
    of_popped r (nobody none_at) = absurd (ground (arith, none_at sig))

-- A signal that is sent to a task which does not mask it is not left waiting: the task is not asleep
-- any more, and `do_signal` delivers it, or one of a lower number that was pending before.
pub do_signal-task_signal :
    (memory : Bool) (t : Task) (sig : ℕ)
    → in_nsig sig ≡ true
    → is_member t.sigmask sig ≡ false
    → let t' = task_signal t sig in
      (t'.state ≢ sleeping)
      × ((low : ℕ) × (low ≤ sig)
          × (deliverable t'.sigpend t'.sigmask low ≡ true)
          × (do_signal memory t' ≡ deliver memory (without t' low) low))
do_signal-task_signal memory t sig r m = (
  state-task_signal t sig m,
  do_signal-lowest memory (task_signal t sig) sig (deliverable-task_signal t sig r m),
)

-- The tasks in front of the first one with the number, that task, and the others.
pub kill_in-found :
    (pid sig : ℕ) (before : List Task) (t : Task) (after : List Task)
    → All (λ u. u.pid ≢ pid) before
    → t.pid ≡ pid
    → sig ≢ 0
    → kill_in pid sig (before ++ (t ∷ after)) ≡ before ++ (task_signal t sig ∷ after)
unfolding kill_in
kill_in-found pid sig [] t after none_before e s =
    let same : (t.pid == pid) ≡ true = ground arith in
    let z : (sig == 0) ≡ false = ground arith in rw (same, kill_in) (rw z refl)
kill_in-found pid sig (u ∷ us) t after (ne, nes) e s =
    let differ : (u.pid == pid) ≡ false = ground arith in
    rw (differ, kill_in) (ap (λ us. u ∷ us) (kill_in-found pid sig us t after nes e s))

kill_in-missing :
    (pid sig : ℕ) (ts : List Task) → All (λ u. u.pid ≢ pid) ts → kill_in pid sig ts ≡ ts
unfolding kill_in
kill_in-missing pid sig [] h = refl
kill_in-missing pid sig (u ∷ us) (ne, nes) =
    let differ : (u.pid == pid) ≡ false = ground arith in
    rw (differ, kill_in) (ap (λ us. u ∷ us) (kill_in-missing pid sig us nes))

-- With a number from 1 to 31 and the number of a task, `sys_kill` sends the signal to the first task
-- of the ring with that number and to no other one.
pub kill-found :
    (pid sig : ℕ) (before : List Task) (t : Task) (after : List Task)
    → in_nsig sig ≡ true
    → All (λ u. u.pid ≢ pid) before
    → t.pid ≡ pid
    → kill (before ++ (t ∷ after)) (pos pid) (pos sig)
      ≡ (true, before ++ (task_signal t sig ∷ after))
unfolding kill
kill-found pid sig before t after r none_before e =
    let guard : ((sig == 0) || ltb 31 sig) ≡ false = ground arith in
    rw guard
      (ap (λ ts. (true, ts)) (kill_in-found pid sig before t after none_before e (ground arith)))

-- `sys_kill` reports success and changes nothing where no task has the number, and it refuses the
-- signal 0.
pub kill-missing :
    (pid : ℕ) (sig : ℤ) (ts : List Task)
    → All (λ u. u.pid ≢ pid) ts
    → ((kill ts (pos pid) sig).1 ≡ ts) × (kill ts (pos pid) (pos 0) ≡ (false, ts))
unfolding kill
kill-missing pid (pos sig) ts h = elim (Bool-cases ((sig == 0) || ltb 31 sig)) [
  | inl g ↦ (rw g refl, refl)
  | inr g ↦ (rw g (kill_in-missing pid sig ts h), refl)
]
kill-missing pid (negsuc n) ts h = (refl, refl)
