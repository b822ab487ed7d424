-- ===== src/Signals.antt =====
-- Signals: libc/include/signal.h (the sets), kernel/src/proc/scheduler.c (sigpop, do_signal),
-- kernel/src/proc/task.c (task_signal), kernel/src/arch/x86/misc.c (sigret_prepare), and
-- kernel/src/sys/sys_sigaction.c, sys_sigprocmask.c, sys_sigreturn.c and sys_kill.c.
pub mod Masks
pub mod Deliveries
pub mod Kills
pub mod Uncaught
mod Tests
use beeos.Prelude.{
  ℕ, zero, suc, ◌+◌, ◌-◌, ◌^◌, ◌%◌, Bool, true, false, not, ◌&&◌, ◌||◌, Option, none, some, List,
  [], ◌∷◌, leb, ltb, ◌==◌, if◌then◌else◌,
}
use beeos.Prelude.Int.{ℤ, pos, negsuc}

abbrev pub nsig : ℕ
nsig = 32

-- `sigset_t`: bit `n` of the word is the value at `n`.
abbrev pub SigSet : Type 0
SigSet = ℕ → Bool

-- `0 < n && n < NSIG`
abbrev pub in_nsig : ℕ → Bool
in_nsig n = ltb 0 n && ltb n nsig

pub sigaddset : SigSet → ℕ → SigSet
sigaddset set n = if in_nsig n then (λ k. if k == n then true else set k) else set

pub sigdelset : SigSet → ℕ → SigSet
sigdelset set n = if in_nsig n then (λ k. if k == n then false else set k) else set

pub sigismember : SigSet → ℕ → ℤ
sigismember set n = if in_nsig n then (if set n then pos 1 else pos 0) else negsuc 0

-- `sigismember(set, n) > 0`, of which `<= 0` is the negation and `== 1` another form.
abbrev pub is_member : SigSet → ℕ → Bool
is_member set n = elim (sigismember set n) [ pos k ↦ ltb 0 k | negsuc k ↦ false ]

-- `struct sigaction`; the constants SIG_DFL, SIG_IGN and NULL are 0, 1 and 0.
pub record Action : Type 0 where
  pub handler : ℕ
  pub mask : SigSet
  pub flags : ℕ
  pub restorer : ℕ

abbrev pub sig_dfl : ℕ
sig_dfl = 0

abbrev pub sig_ign : ℕ
sig_ign = 1

-- `struct isr_frame`: the fields that are used, and the others.
pub record Frame : Type 0 where
  pub eax : ℕ
  pub eip : ℕ
  pub usr_esp : ℕ
  pub rest : List ℕ

pub data State : Type 0 where
  running sleeping zombie : State

-- What signals use of a `struct task`: `queued` tells whether `condw` is on a queue, `stack` is the
-- word at an address of user space.
pub record Task : Type 0 where
  pub pid : ℕ
  pub state : State
  pub queued : Bool
  pub sigpend : SigSet
  pub sigmask : SigSet
  pub signals : ℕ → Action
  pub ifr : Frame
  pub sfr : Option Frame
  pub stack : ℕ → ℕ

-- What `task_signal` does to a task that is not masked against the signal.
pub wake : Task → Task
wake t = elim t.state [
  | sleeping ↦ record t { state = running; queued = false }
  | running ↦ t
  | zombie ↦ t
]

unfoldable pub task_signal : Task → ℕ → Task
unfolding wake
task_signal t sig =
    let t' = record t { sigpend = sigaddset t.sigpend sig } in
    if is_member t.sigmask sig then t' else wake t'

-- `sigismember(sigpend, sig) == 1 && sigismember(sigmask, sig) <= 0`
abbrev pub deliverable : SigSet → SigSet → ℕ → Bool
deliverable pend mask sig = is_member pend sig && not (is_member mask sig)

-- The loop of `sigpop`, with the number of signals that are left.
pub first_from : ℕ → ℕ → SigSet → SigSet → Option ℕ
first_from zero sig pend mask = none
first_from (suc n) sig pend mask =
    let rest = first_from n (sig + 1) pend mask in
    if deliverable pend mask sig then some sig else rest

pub sigpop : SigSet → SigSet → Option ℕ × SigSet
unfolding first_from
sigpop pend mask = elim (first_from nsig 0 pend mask) [
  | none ↦ (none, pend)
  | some sig ↦ (some sig, sigdelset pend sig)
]

-- `*(--esp) = v`, in 32 bits.
abbrev pub down : ℕ → ℕ
down esp = (esp + 2 ^ 32 - 4) % 2 ^ 32

abbrev pub store : (ℕ → ℕ) → ℕ → ℕ → ℕ → ℕ
store mem a v q = if q == a then v else mem q

pub sigret_prepare : Task → Action → ℕ → Task
sigret_prepare t act sig =
    let esp1 = down t.ifr.usr_esp in
    let esp2 = down esp1 in
    record t {
      ifr = record (t.ifr) { usr_esp = esp2; eip = act.handler };
      stack = store (store t.stack esp1 sig) esp2 act.restorer;
    }

-- What `do_signal` comes to: -1, 0, or the end of the process, `sys_exit(1)`.
pub data Delivery : Type 0 where
  nothing : Task → Delivery
  handled : Task → Delivery
  exits : Task → Delivery

-- The signals whose default is to be ignored: SIGCHLD and SIGURG, and SIGSTOP, SIGTSTP, SIGTTIN and
-- SIGTTOU, which do not stop the process yet.
abbrev pub is_ignored : ℕ → Bool
is_ignored sig =
    ((sig == 17) || (sig == 23)) || ((sig == 19) || ((sig == 20) || ((sig == 21) || (sig == 22))))

-- The handler is called, where the frame can be saved; `memory` tells whether `kmalloc` succeeds.
pub call_handler : Bool → Task → Action → ℕ → Task
unfolding sigret_prepare
call_handler memory t act sig = elim t.sfr [
  | some f ↦ sigret_prepare t act sig
  | none ↦ if memory then sigret_prepare (record t { sfr = some t.ifr }) act sig else t
]

-- `do_signal` for the signal that was popped.
pub deliver : Bool → Task → ℕ → Delivery
unfolding call_handler
deliver memory t sig =
    let act = t.signals (sig - 1) in
    if act.handler == sig_dfl
    then (if is_ignored sig then handled t else exits t)
    else (if (act.restorer == 0) || (act.handler == sig_ign)
        then handled t
        else handled (call_handler memory t act sig))

-- `do_signal` after `sigpop`.
pub popped_signal : Bool → Task → Option ℕ × SigSet → Delivery
unfolding deliver
popped_signal memory t (none, pend) = nothing (record t { sigpend = pend })
popped_signal memory t (some sig, pend) =
    let t' = record t { sigpend = pend } in if sig == 0 then nothing t' else deliver memory t' sig

pub do_signal : Bool → Task → Delivery
unfolding popped_signal
do_signal memory t = popped_signal memory t (sigpop t.sigpend t.sigmask)

-- `sys_sigreturn`: the result is that of the frame which is restored.
unfoldable pub sigreturn : Task → Option ℕ × Task
sigreturn t = elim t.sfr [
  | none ↦ (none, t)
  | some f ↦ (some f.eax, record t { ifr = f; sfr = none })
]

-- `sys_sigaction`: `none` for -EINVAL, else 0 and the old action, where it is written.
unfoldable pub sigaction : Task → ℤ → Action → Option (Option Action) × Task
sigaction t (negsuc n) act = (none, t)
sigaction t (pos sig) act =
    if (sig == 0) || ltb nsig sig
    then (none, t)
    else (if (sig == 19) || (sig == 9) then (some none, t) else (
      some (some (t.signals (sig - 1))),
      record t { signals = λ k. if k == sig - 1 then act else t.signals k },
    ))

-- The loop of `sys_execve` over the actions.
pub reset_actions : (ℕ → Action) → ℕ → Action
reset_actions acts k =
    if ltb k nsig && not ((acts k).handler == sig_ign)
    then record { handler = sig_dfl; mask = λ n. false; flags = 0; restorer = 0 }
    else acts k

pub data How : Type 0 where
  sig_block sig_unblock sig_setmask other : How

-- The loop of `sys_sigprocmask`, with the number of signals that are left; `false` for -EINVAL.
pub mask_from : ℕ → ℕ → How → SigSet → SigSet → Bool × SigSet
mask_from zero sig how set mask = (true, mask)
mask_from (suc n) sig how set mask =
    let skip = mask_from n (sig + 1) how set mask in
    let add = mask_from n (sig + 1) how set (sigaddset mask sig) in
    let del = mask_from n (sig + 1) how set (sigdelset mask sig) in
    if is_member set sig
    then elim how [
      | sig_block ↦ add
      | sig_unblock ↦ del
      | sig_setmask ↦ (false, mask)
      | other ↦ (false, mask)
    ]
    else skip

-- `sys_sigprocmask`: whether it succeeds, the old mask, and the new one.
unfoldable pub sigprocmask : Task → How → Option SigSet → (Bool × SigSet) × Task
unfolding mask_from
sigprocmask t how none = ((true, t.sigmask), t)
sigprocmask t sig_setmask (some set) = ((true, t.sigmask), record t { sigmask = set })
sigprocmask t sig_block (some set) =
    let r = mask_from nsig 0 sig_block set t.sigmask in
    ((r.0, t.sigmask), record t { sigmask = r.1 })
sigprocmask t sig_unblock (some set) =
    let r = mask_from nsig 0 sig_unblock set t.sigmask in
    ((r.0, t.sigmask), record t { sigmask = r.1 })
sigprocmask t other (some set) =
    let r = mask_from nsig 0 other set t.sigmask in ((r.0, t.sigmask), record t { sigmask = r.1 })

-- The loop of `sys_kill` over the ring of tasks, from the current one on.
pub kill_in : ℕ → ℕ → List Task → List Task
unfolding task_signal
kill_in pid sig [] = []
kill_in pid sig (t ∷ ts) =
    let rest = kill_in pid sig ts in
    if t.pid == pid then (if sig == 0 then t else task_signal t sig) ∷ ts else t ∷ rest

-- `false` for -EINVAL. No task has a negative number.
unfoldable pub kill : List Task → ℤ → ℤ → Bool × List Task
unfolding kill_in
kill ts pid (negsuc n) = (false, ts)
kill ts (pos pid) (pos sig) =
    if (sig == 0) || ltb 31 sig then (false, ts) else (true, kill_in pid sig ts)
kill ts (negsuc pid) (pos sig) = if (sig == 0) || ltb 31 sig then (false, ts) else (true, ts)
