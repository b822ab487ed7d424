-- ===== src/Signals/Deliveries.antt =====
-- What a pending signal comes to: kernel/src/proc/scheduler.c, kernel/src/proc/task.c and
-- kernel/src/sys/sys_sigreturn.c and sys_sigaction.c.
use mathlib.Core.Path.{subst}
use native.Mathlib.Decide.{ℕ_discrete}
use beeos.Prelude.{
  ℕ, zero, suc, ◌+◌, ◌-◌, ◌≤◌, ◌<◌, ◌≡◌, refl, ◌≢◌, inl, inr, Bool, true, false, ◌||◌, Option, none,
  some, arith, ◌==◌, Option-cases, Bool-cases,
}
use beeos.Signals.Masks.{is_member_bit}
use beeos.Signals.{
  SigSet, nsig, in_nsig, sigdelset, Action, Frame, Task, sig_dfl, is_ignored, deliverable,
  first_from, sigpop, Delivery, handled, deliver, do_signal, popped_signal, call_handler,
  sigret_prepare, sigreturn,
}

-- What `sigpop` promises of its two sets: the lowest signal that is pending and not masked, taken
-- off the pending ones, or none where there is no such signal.
pub data Pops (pend mask : SigSet) : Option ℕ × SigSet → Type 0 where
  lowest :
      (sig : ℕ)
      → deliverable pend mask sig ≡ true
      → ((k : ℕ) → k < sig → deliverable pend mask k ≡ false)
      → Pops pend mask (some sig, sigdelset pend sig)
  nobody : ((k : ℕ) → deliverable pend mask k ≡ false) → Pops pend mask (none, pend)

deliverable-in_nsig :
    (pend mask : SigSet) (k : ℕ) → deliverable pend mask k ≡ true → in_nsig k ≡ true
deliverable-in_nsig pend mask k e = ground (arith, is_member_bit pend k)

first_from-some :
    (n sig : ℕ) (pend mask : SigSet) {m : ℕ}
    → first_from n sig pend mask ≡ some m
    → (deliverable pend mask m ≡ true)
      × ((k : ℕ) → sig ≤ k → k < m → deliverable pend mask k ≡ false)
unfolding first_from
first_from-some zero sig pend mask e = cc
first_from-some (suc n) sig pend mask {m} e = elim (Bool-cases (deliverable pend mask sig)) [
  | inl d ↦
      let same : sig ≡ m = ground arith in
      let d' = rw same at d in (d', λ k le lt. absurd (omega arith))
  | inr d ↦
      let (at, below) = first_from-some n (sig + 1) pend mask (rw d at e) in
      (
        at,
        λ k le lt. elim (ℕ_discrete sig k) [
          | yes same ↦ rw same at d
          | no differ ↦ below k (omega arith) lt
        ],
      )
]

first_from-none :
    (n sig : ℕ) (pend mask : SigSet)
    → first_from n sig pend mask ≡ none
    → (k : ℕ) → sig ≤ k
    → k < sig + n
    → deliverable pend mask k ≡ false
unfolding first_from
first_from-none zero sig pend mask e k le lt = absurd (omega arith)
first_from-none (suc n) sig pend mask e k le lt = elim (Bool-cases (deliverable pend mask sig)) [
  | inl d ↦ absurd (ground arith)
  | inr d ↦ elim (ℕ_discrete sig k) [
    | yes same ↦ rw same at d
    | no differ ↦ first_from-none n (sig + 1) pend mask (rw d at e) k (omega arith) (omega arith)
  ]
]

-- For all sets of pending and of masked signals, `sigpop` takes the lowest signal that is pending
-- and not masked, or none where there is none.
pub sigpop-Pops : (pend mask : SigSet) → Pops pend mask (sigpop pend mask)
unfolding sigpop
sigpop-Pops pend mask = elim (Option-cases (first_from nsig 0 pend mask)) [
  | inl e ↦
      rw (e, sigpop)
        (nobody λ k. elim (Bool-cases (deliverable pend mask k)) [
          | inl d ↦
              let inside = deliverable-in_nsig pend mask k d in
              first_from-none nsig 0 pend mask e k (omega arith) (ground arith)
          | inr d ↦ d
        ])
  | inr (sig, e) ↦
      let (d, below) = first_from-some nsig 0 pend mask e in
      rw (e, sigpop) (lowest sig d (λ k lt. below k (omega arith) lt))
]

-- The frame of the program that the handlers interrupt.
abbrev pub interrupted : Task → Frame
interrupted t = elim t.sfr [ none ↦ t.ifr | some f ↦ f ]

-- The task as `sigreturn` leaves it, but for what the delivery changes.
abbrev pub resumed : Task → Task → Task
resumed t u = record t { ifr = interrupted t; sfr = none; sigpend = u.sigpend; stack = u.stack }

sigreturn-call_handler :
    (memory : Bool) (t : Task) (act : Action) (sig : ℕ)
    → (call_handler memory t act sig).sfr ≢ none
    → sigreturn (call_handler memory t act sig)
      ≡ (some (interrupted t).eax, resumed t (call_handler memory t act sig))
unfolding sigreturn call_handler sigret_prepare
sigreturn-call_handler memory t act sig h = by_frame memory t.sfr h
  where
    by_frame :
        (memory : Bool) (o : Option Frame)
        → let t' = record t { sfr = o } in
          (call_handler memory t' act sig).sfr ≢ none
          → sigreturn (call_handler memory t' act sig)
            ≡ (some (interrupted t').eax, resumed t' (call_handler memory t' act sig))
    by_frame memory (some f) h = refl
    by_frame true none h = refl
    by_frame false none h = absurd (h refl)

sigreturn_kept : (t : Task) → t.sfr ≢ none → sigreturn t ≡ (some (interrupted t).eax, resumed t t)
unfolding sigreturn
sigreturn_kept t h = by_frame t.sfr h
  where
    by_frame :
        (o : Option Frame)
        → let t' = record t { sfr = o } in
          o ≢ none → sigreturn t' ≡ (some (interrupted t').eax, resumed t' t')
    by_frame (some f) h = refl
    by_frame none h = absurd (h refl)

-- What is claimed of a delivery that returns 0.
abbrev Returns : Task → Delivery → Type 0
Returns t d =
    (u : Task)
    → d ≡ handled u
    → u.sfr ≢ none
    → sigreturn u ≡ (some (interrupted t).eax, resumed t u)

handled-inj : (t u : Task) → handled t ≡ handled u → t ≡ u
handled-inj t u e = cc

Returns-handled :
    (t v : Task)
    → (v.sfr ≢ none → sigreturn v ≡ (some (interrupted t).eax, resumed t v))
    → Returns t (handled v)
Returns-handled t v k u e h =
    subst (λ w. w.sfr ≢ none → sigreturn w ≡ (some (interrupted t).eax, resumed t w))
      (handled-inj v u e) k h

deliver-Returns : (memory : Bool) (t : Task) (sig : ℕ) → Returns t (deliver memory t sig)
unfolding deliver
deliver-Returns memory t sig =
    let act : Action = t.signals (sig - 1) in
    elim (Bool-cases (act.handler == sig_dfl)) [
      | inl d ↦ elim (Bool-cases (is_ignored sig)) [
        | inl i ↦ rw (d, deliver) (rw i (Returns-handled t t (sigreturn_kept t)))
        | inr i ↦ rw (d, deliver) (rw i (λ u e h. cc))
      ]
      | inr d ↦ elim (Bool-cases ((act.restorer == 0) || (act.handler == 1))) [
        | inl i ↦ rw (d, deliver) (rw i (Returns-handled t t (sigreturn_kept t)))
        | inr i ↦
            rw (d, deliver)
              (rw i (
                Returns-handled t (call_handler memory t act sig)
                  (sigreturn-call_handler memory t act sig)))
      ]
    ]

-- After a delivery that left a saved frame, `sys_sigreturn` returns to the program that the handlers
-- interrupt, with its frame and the result in it, whichever handler was the last to start: nothing
-- of the task is then changed but the pending signals and the stack.
pub sigreturn-do_signal :
    (memory : Bool) (t : Task) {u : Task}
    → do_signal memory t ≡ handled u
    → u.sfr ≢ none
    → sigreturn u ≡ (some (interrupted t).eax, resumed t u)
unfolding do_signal
sigreturn-do_signal memory t {u} e h = of_popped (sigpop t.sigpend t.sigmask) u e h
  where
    of_popped : (r : Option ℕ × SigSet) → Returns t (popped_signal memory t r)
    of_popped (none, pend) u e h = cc
    of_popped (some sig, pend) u e h = elim (Bool-cases (sig == 0)) [
      | inl z ↦ let e' = rw z at e in cc
      | inr z ↦
          let e' = rw z at e in deliver-Returns memory (record t { sigpend = pend }) sig u e' h
    ]
