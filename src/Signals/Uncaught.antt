-- ===== src/Signals/Uncaught.antt =====
-- SIGKILL cannot be caught: kernel/src/sys/sys_sigaction.c and sys_execve.c keep its action, and
-- kernel/src/proc/scheduler.c ends the process.
use beeos.Prelude.{ℕ, ◌<◌, ◌≡◌, refl, ◌≢◌, ap, sym, ◌∙◌, Bool, true, false, List, [], ◌∷◌, arith}
use beeos.Prelude.Int.{ℤ, pos, negsuc}
use native.Mathlib.Decide.{ℕ_discrete}
use beeos.Signals.Masks.{is_member_bit}
use beeos.Signals.Kills.{
  sigpend-task_signal, sigmask-task_signal, signals-task_signal, do_signal-lowest,
  deliverable-task_signal, without,
}
use beeos.Signals.{
  SigSet, sigaddset, is_member, Action, Task, sig_dfl, task_signal, deliverable, exits, deliver,
  do_signal, sigaction, reset_actions,
}

-- What a process does to its actions: it sets one, or it starts a program.
pub data Change : Type 0 where
  act : ℤ → Action → Change
  exec : Change

unfoldable pub run : Task → List Change → Task
run t [] = t
run t (act sig a ∷ cs) = run (sigaction t sig a).1 cs
run t (exec ∷ cs) = run (record t { signals = reset_actions t.signals }) cs

-- SIGKILL has its default action.
abbrev pub IsUncaught : Task → Type 0
IsUncaught t = (t.signals 8).handler ≡ sig_dfl

sigaction-IsUncaught :
    (t : Task) (sig : ℤ) (a : Action) → IsUncaught t → IsUncaught (sigaction t sig a).1
unfolding sigaction
sigaction-IsUncaught t (negsuc n) a h = h
sigaction-IsUncaught t (pos sig) a h = ground arith

reset_actions-IsUncaught :
    (t : Task) → IsUncaught t → IsUncaught (record t { signals = reset_actions t.signals })
unfolding reset_actions
reset_actions-IsUncaught t h = ground arith

run-IsUncaught : (cs : List Change) (t : Task) → IsUncaught t → IsUncaught (run t cs)
unfolding run
run-IsUncaught [] t h = h
run-IsUncaught (act sig a ∷ cs) t h =
    run-IsUncaught cs (sigaction t sig a).1 (sigaction-IsUncaught t sig a h)
run-IsUncaught (exec ∷ cs) t h =
    run-IsUncaught cs (record t { signals = reset_actions t.signals })
      (reset_actions-IsUncaught t h)

-- The signals below SIGKILL are pending as before it was sent.
deliverable-sigaddset :
    (pend mask : SigSet) (k : ℕ)
    → k < 9
    → deliverable (sigaddset pend 9) mask k ≡ deliverable pend mask k
unfolding sigaddset
deliverable-sigaddset pend mask k lt =
    ground (arith, is_member_bit pend k, is_member_bit (sigaddset pend 9) k)

deliver-exits :
    (memory : Bool) (t : Task)
    → IsUncaught t
    → deliver memory (without (task_signal t 9) 9) 9 ≡ exits (without (task_signal t 9) 9)
unfolding deliver
deliver-exits memory t h =
    let kept : ((task_signal t 9).signals 8).handler ≡ sig_dfl =
      ap (λ f. (f 8).handler) (signals-task_signal t 9) ∙ h in
    rw kept refl

kill_9-exits :
    (memory : Bool) (t : Task)
    → IsUncaught t
    → is_member t.sigmask 9 ≡ false
    → ((k : ℕ) → k < 9 → deliverable t.sigpend t.sigmask k ≡ false)
    → do_signal memory (task_signal t 9) ≡ exits (without (task_signal t 9) 9)
kill_9-exits memory t h m none_below =
    let (low, le, at, e) =
      do_signal-lowest memory (task_signal t 9) 9 (deliverable-task_signal t 9 refl m) in
    elim (ℕ_discrete low 9) [
      | yes same ↦ (rw same at e) ∙ deliver-exits memory t h
      | no differ ↦ absurd (too_low low (omega arith) at)
    ]
  where
    true_ne_false : true ≢ false
    true_ne_false e = cc

    too_low :
        (k : ℕ) → k < 9 → deliverable (task_signal t 9).sigpend (task_signal t 9).sigmask k ≢ true
    too_low k lt at =
        let at' = rw (sigpend-task_signal t 9, sigmask-task_signal t 9) at at in
        let below = none_below k lt in
        let same = deliverable-sigaddset t.sigpend t.sigmask k lt in
        true_ne_false (sym at' ∙ same ∙ below)

-- Whatever actions a process asked for since it started with the default ones, SIGKILL ends it: the
-- signal is not masked, and no signal of a lower number can be delivered first.
pub kill-exits :
    (memory : Bool) (t : Task) (cs : List Change)
    → IsUncaught t
    → let t' = run t cs in
      is_member t'.sigmask 9 ≡ false
      → ((k : ℕ) → k < 9 → deliverable t'.sigpend t'.sigmask k ≡ false)
      → do_signal memory (task_signal t' 9) ≡ exits (without (task_signal t' 9) 9)
kill-exits memory t cs h m none_below =
    kill_9-exits memory (run t cs) (run-IsUncaught cs t h) m none_below
