-- ===== src/Signals/Masks.antt =====
-- The signal mask: kernel/src/sys/sys_sigprocmask.c.
use native.Mathlib.Decide.{ℕ_discrete}
use beeos.Prelude.{
  ℕ, zero, suc, ◌+◌, ◌≡◌, ◌≢◌, refl, Bool, true, false, not, ◌&&◌, ◌||◌, some, arith, leb, ltb,
  ◌==◌, inl, inr, Bool-cases, ◌<◌, ◌≤◌, ap, ◌∙◌,
}
use beeos.Signals.{
  SigSet, nsig, in_nsig, sigaddset, sigdelset, sigismember, is_member, Task, How, sig_block,
  sig_unblock, sig_setmask, other, mask_from, sigprocmask,
}

-- Membership is the bit, for the numbers of signals.
pub is_member_bit : (set : SigSet) (n : ℕ) → is_member set n ≡ (in_nsig n && set n)
unfolding sigismember
is_member_bit set n = ground arith

-- The signals from `sig` on, `n` of them, that are in the set.
abbrev among : ℕ → ℕ → SigSet → ℕ → Bool
among sig n set k = (leb sig k && ltb k (sig + n)) && (in_nsig k && set k)

-- The first of them taken on its own.
among_first :
    (sig n : ℕ) (set : SigSet) (k : ℕ)
    → among sig (suc n) set k ≡ ((k == sig) && (in_nsig sig && set sig) || among (sig + 1) n set k)
among_first sig n set k = elim (ℕ_discrete sig k) [
  | yes same ↦ rw (← same) (ground arith)
  | no differ ↦ ground arith
]

bit-sigaddset :
    (set : SigSet) (n k : ℕ)
    → is_member set n ≡ true
    → (mask : SigSet) → sigaddset mask n k ≡ ((k == n) || mask k)
unfolding sigaddset sigismember
bit-sigaddset set n k e mask = ground arith

bit-sigdelset :
    (set : SigSet) (n k : ℕ)
    → is_member set n ≡ true
    → (mask : SigSet) → sigdelset mask n k ≡ (not (k == n) && mask k)
unfolding sigdelset sigismember
bit-sigdelset set n k e mask = ground arith

mask_from-block :
    (n sig : ℕ) (set mask : SigSet) (k : ℕ)
    → ((mask_from n sig sig_block set mask).0 ≡ true)
      × ((mask_from n sig sig_block set mask).1 k ≡ (among sig n set k || mask k))
unfolding mask_from
mask_from-block zero sig set mask k = (refl, ground arith)
mask_from-block (suc n) sig set mask k =
    rw (among_first sig n set k) (elim (Bool-cases (is_member set sig)) [
      | inl e ↦
          let (ok, at) = mask_from-block n (sig + 1) set (sigaddset mask sig) k in
          rw (e, mask_from)
            (ok, at ∙ ground (arith, is_member_bit set sig, bit-sigaddset set sig k e mask))
      | inr e ↦
          let (ok, at) = mask_from-block n (sig + 1) set mask k in
          rw (e, mask_from) (ok, at ∙ ground (arith, is_member_bit set sig))
    ])

mask_from-unblock :
    (n sig : ℕ) (set mask : SigSet) (k : ℕ)
    → ((mask_from n sig sig_unblock set mask).0 ≡ true)
      × ((mask_from n sig sig_unblock set mask).1 k ≡ (not (among sig n set k) && mask k))
unfolding mask_from
mask_from-unblock zero sig set mask k = (refl, ground arith)
mask_from-unblock (suc n) sig set mask k =
    rw (among_first sig n set k) (elim (Bool-cases (is_member set sig)) [
      | inl e ↦
          let (ok, at) = mask_from-unblock n (sig + 1) set (sigdelset mask sig) k in
          rw (e, mask_from)
            (ok, at ∙ ground (arith, is_member_bit set sig, bit-sigdelset set sig k e mask))
      | inr e ↦
          let (ok, at) = mask_from-unblock n (sig + 1) set mask k in
          rw (e, mask_from) (ok, at ∙ ground (arith, is_member_bit set sig))
    ])

mask_from-refused :
    (n sig : ℕ) (set mask : SigSet) (k : ℕ)
    → is_member set k ≡ true
    → sig ≤ k
    → k < sig + n
    → mask_from n sig other set mask ≡ (false, mask)
unfolding mask_from
mask_from-refused zero sig set mask k e le lt = absurd (omega arith)
mask_from-refused (suc n) sig set mask k e le lt = elim (Bool-cases (is_member set sig)) [
  | inl m ↦ rw (m, mask_from) refl
  | inr m ↦
      rw (m, mask_from)
        (mask_from-refused n (sig + 1) set mask k e (omega (arith, differ m)) (omega arith))
]
  where
    differ : is_member set sig ≡ false → sig ≢ k
    differ m same = let m' = rw same at m in cc

-- The bit of a signal in the new mask.
abbrev pub masked : How → SigSet → SigSet → ℕ → Bool
masked sig_block set mask k = is_member set k || mask k
masked sig_unblock set mask k = not (is_member set k) && mask k
masked sig_setmask set mask k = set k
masked other set mask k = mask k

among_all : (set : SigSet) (k : ℕ) → among 0 nsig set k ≡ is_member set k
among_all set k = ground (arith, is_member_bit set k)

-- For every signal and each of the three known first arguments, `sys_sigprocmask` succeeds, returns
-- the old mask, and leaves in the mask the bit of the union with the set, of the difference from
-- it, or of the set.
pub sigprocmask-masked :
    (t : Task) (how : How) (set : SigSet) (k : ℕ)
    → how ≢ other
    → ((sigprocmask t how (some set)).0 ≡ (true, t.sigmask))
      × ((sigprocmask t how (some set)).1.sigmask k ≡ masked how set t.sigmask k)
unfolding sigprocmask
sigprocmask-masked t sig_block set k e =
    let (ok, at) = mask_from-block nsig 0 set t.sigmask k in
    (ap (λ b. (b, t.sigmask)) ok, at ∙ ap (λ b. b || t.sigmask k) (among_all set k))
sigprocmask-masked t sig_unblock set k e =
    let (ok, at) = mask_from-unblock nsig 0 set t.sigmask k in
    (ap (λ b. (b, t.sigmask)) ok, at ∙ ap (λ b. not b && t.sigmask k) (among_all set k))
sigprocmask-masked t sig_setmask set k e = (refl, refl)
sigprocmask-masked t other set k e = absurd (e refl)

-- With an unknown first argument it fails with the mask as it was where the set has a signal.
pub sigprocmask-other :
    (t : Task) (set : SigSet) (k : ℕ)
    → is_member set k ≡ true
    → sigprocmask t other (some set) ≡ ((false, t.sigmask), t)
unfolding sigprocmask
sigprocmask-other t set k e =
    let at =
      mask_from-refused nsig 0 set t.sigmask k e (omega arith)
        (ground (arith, is_member_bit set k)) in
    rw at refl
