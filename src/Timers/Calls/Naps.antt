-- ===== src/Timers/Calls/Naps.antt =====
-- kernel/src/sys/sys_nanosleep.c: how long a sleep lasts.
use beeos.Prelude.{
  ℕ, ◌+◌, ◌*◌, ◌/◌, ◌%◌, ◌^◌, ◌≤◌, ◌<◌, ◌≡◌, Bool, true, false, Option, none, some, arith,
  if◌then◌else◌,
}
use beeos.Prelude.Int.{ℤ, pos}
use beeos.Timers.{Timers, msecs_to_ticks}
use beeos.Timers.Calls.{
  now_of, invalid, asleep, asleep_until, msecs_of, sys_nanosleep, nanosleep_wake,
}

asleep-when :
    (bad : Bool) (w when : ℕ) (o : Option Timers) (s' : Timers)
    → (if bad then invalid else asleep_until w o) ≡ asleep when s'
    → w ≡ when
asleep-when true w when o s' e = ground (arith, e)
asleep-when false w when none s' e = ground (arith, e)
asleep-when false w when (some s) s' e = ground (arith, e)

sys_nanosleep-when :
    (fuel tm : ℕ) (sec nsec : ℤ) (when : ℕ) (s s' : Timers)
    → sys_nanosleep fuel tm sec nsec s ≡ asleep when s'
    → (s.timer_ticks + msecs_to_ticks (msecs_of sec nsec)) % 2 ^ 32 ≡ when
unfolding sys_nanosleep
sys_nanosleep-when fuel tm sec nsec when s s' e = asleep-when _ _ when _ s' e

wake-past : (tm when : ℕ) (s : Timers) → (nanosleep_wake tm when s).0 ≡ none → when ≤ now_of s
unfolding nanosleep_wake
wake-past tm when s e = ground (arith, e)

-- The milliseconds of a request that fits in 32 bits.
msecs_of-exact :
    (sec nsec : ℕ)
    → nsec < 1000000000
    → sec * 1000 + 1000 ≤ 2 ^ 32
    → msecs_of (pos sec) (pos nsec) ≡ sec * 1000 + nsec / 1000000
unfolding msecs_of
msecs_of-exact sec nsec below fits = omega (arith, below, fits)

-- A sleep of `sec` seconds and `nsec` nanoseconds from `s` on whose end is told as complete, at `later`,
-- took the time that was asked for but for less than one millisecond, at 10 ^ 7 nanoseconds a tick:
-- where `nsec` is below 10 ^ 9, the request fits in 32 bits of milliseconds, and its end in 32 bits of
-- ticks.
pub nanosleep_wake-sys_nanosleep :
    (fuel tm sec nsec : ℕ) (when : ℕ) (s s' later : Timers)
    → sys_nanosleep fuel tm (pos sec) (pos nsec) s ≡ asleep when s'
    → nsec < 1000000000
    → sec * 1000 + 1000 ≤ 2 ^ 32
    → s.timer_ticks + 100 * sec + 100 < 2 ^ 32
    → (nanosleep_wake tm when later).0 ≡ none
    → s.timer_ticks * 10000000 + sec * 1000000000 + nsec < later.timer_ticks * 10000000 + 1000000
unfolding msecs_to_ticks
nanosleep_wake-sys_nanosleep fuel tm sec nsec when s s' later e below fits ticks ends =
    let at = sys_nanosleep-when fuel tm (pos sec) (pos nsec) when s s' e in
    let exact = msecs_of-exact sec nsec below fits in
    let at' = rw exact at at in
    let past = wake-past tm when later ends in omega (arith, at', past, below, ticks)
