-- ===== src/Signals/Tests.antt =====
-- Signals of one process with a handler for SIGUSR1.
use beeos.Prelude.{
  ℕ, ◌≤◌, ◌≡◌, refl, ◌≢◌, true, false, none, some, [], ◌∷◌, arith, ◌==◌, if◌then◌else◌,
}
use beeos.Prelude.Int.{pos}
use beeos.Signals.Deliveries.{Pops, sigpop-Pops, resumed, sigreturn-do_signal}
use beeos.Signals.Kills.{do_signal-task_signal, without}
use beeos.Signals.Uncaught.{act, exec, run, kill-exits}
use beeos.Signals.{
  SigSet, Action, Frame, Task, sleeping, deliverable, exits, deliver, do_signal, sigpop, sigaction,
  task_signal, sigreturn, sigret_prepare, sigdelset, sigismember,
}

abbrev empty_set : SigSet
empty_set = λ k. false

abbrev default : Action
default = record { handler = 0; mask = empty_set; flags = 0; restorer = 0 }

abbrev user_code : Frame
user_code = record { eax = 7; eip = 1000; usr_esp = 4000; rest = [] }

-- Asleep, with SIGUSR1 (10) pending and a handler for it.
abbrev process : Task
process = record {
  pid = 3;
  state = sleeping;
  queued = true;
  sigpend = λ k. k == 10;
  sigmask = empty_set;
  signals = λ k.
      if k == 9
      then record { handler = 2000; mask = empty_set; flags = 0; restorer = 3000 }
      else default;
  ifr = user_code;
  sfr = none;
  stack = λ q. 0;
}

-- The process when the handler is about to start.
abbrev caught : Task
caught =
    sigret_prepare (record process { sigpend = sigdelset process.sigpend 10; sfr = some user_code })
      (process.signals 9) 10

sigpop-Pops_example : Pops process.sigpend empty_set (sigpop process.sigpend empty_set)
sigpop-Pops_example = sigpop-Pops process.sigpend empty_set

sigreturn-do_signal_example : sigreturn caught ≡ (some 7, resumed process caught)
unfolding do_signal sigret_prepare sigismember sigpop
sigreturn-do_signal_example = sigreturn-do_signal true process refl (λ e. cc)

do_signal-task_signal_example :
    ((task_signal process 2).state ≢ sleeping)
    × ((low : ℕ) × (low ≤ 2)
        × (deliverable (task_signal process 2).sigpend (task_signal process 2).sigmask low ≡ true)
        × (do_signal true (task_signal process 2)
            ≡ deliver true (without (task_signal process 2) low) low))
unfolding sigismember
do_signal-task_signal_example = do_signal-task_signal true process 2 refl refl

kill-exits_example :
    do_signal true (task_signal (run process (act (pos 9) (process.signals 9) ∷ exec ∷ [])) 9)
    ≡ exits (without (task_signal (run process (act (pos 9) (process.signals 9) ∷ exec ∷ [])) 9) 9)
unfolding sigismember run sigaction
kill-exits_example =
    kill-exits true process (act (pos 9) (process.signals 9) ∷ exec ∷ []) refl refl
      (λ k lt. ground arith)
