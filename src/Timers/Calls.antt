-- ===== src/Timers/Calls.antt =====
-- kernel/src/sys/sys_alarm.c and sys_nanosleep.c: the system calls that put events on the queue.

pub mod Alarms
pub mod Naps
use beeos.Prelude.{
  ℕ, ◌+◌, ◌-◌, ◌*◌, ◌/◌, ◌%◌, ◌^◌, Bool, true, false, ◌||◌, Option, none, some, leb, ltb, ◌==◌,
  if◌then◌else◌,
}
use beeos.Prelude.Int.{ℤ, pos, negsuc, to_long}
use beeos.Links.{list_insert_before, list_delete, list_empty}
use beeos.Signals.{sleeping}
use beeos.Timers.{
  Timers, Handler, no_handler, alarm_handler, sleep_timer_handler, put_task, timer_event_add,
  timer_event_del, timer_event_mod, timer_event_init, msecs_to_ticks, ticks_to_msecs,
}

-- `timer_ticks` as an `unsigned long`.
abbrev pub now_of : Timers → ℕ
now_of s = s.timer_ticks % 2 ^ 32

abbrev pub is_alarm : Handler → Bool
is_alarm no_handler = false
is_alarm alarm_handler = true
is_alarm sleep_timer_handler = false

-- The first use of a task's alarm.
pub alarm_ready : Timers → Timers
unfolding timer_event_init
alarm_ready s =
    let tm = s.alarm s.current in
    if is_alarm (s.func tm) then s else timer_event_init tm alarm_handler s.current 0 s

-- The whole seconds from `now` to `when`.
pub seconds_left : ℕ → ℕ → ℕ
unfolding ticks_to_msecs
seconds_left when now = if ltb now when then ticks_to_msecs (when - now) / 1000 else 0

-- The time of an alarm, where `unsigned` numbers have 32 bits.
pub alarm_time : ℕ → ℕ → ℕ
unfolding msecs_to_ticks
alarm_time now seconds = (now + msecs_to_ticks (seconds * 1000 % 2 ^ 32)) % 2 ^ 32

-- The event is also one of the task's timers.
abbrev pub join_task : ℕ → Timers → Timers
join_task tm s =
    if list_empty tm s.plinks
    then record s { plinks = list_insert_before (s.timers s.current) tm s.plinks }
    else s

abbrev pub join_task_after : ℕ → Option Timers → Option Timers
join_task_after tm none = none
join_task_after tm (some s) = some (join_task tm s)

-- The branch for a number of seconds that is not 0.
pub alarm_set : ℕ → ℕ → Timers → Option Timers
unfolding timer_event_mod list_empty list_insert_before alarm_time
alarm_set fuel seconds s =
    let tm = s.alarm s.current in
    join_task_after tm (timer_event_mod fuel tm (alarm_time (now_of s) seconds) s)

abbrev pub leave_task : ℕ → Timers → Timers
leave_task tm s =
    if list_empty tm s.plinks then s else record s { plinks = list_delete tm s.plinks }

-- The branch for 0.
pub alarm_clear : Timers → Timers
unfolding timer_event_del list_empty list_delete
alarm_clear s =
    let tm = s.alarm s.current in
    leave_task tm (if list_empty tm s.links then s else timer_event_del tm s)

abbrev pub left_with : ℕ → Option Timers → Option (ℕ × Timers)
left_with left none = none
left_with left (some s) = some (left, s)

unfoldable pub sys_alarm : ℕ → ℕ → Timers → Option (ℕ × Timers)
unfolding alarm_ready alarm_set alarm_clear seconds_left
sys_alarm fuel seconds s =
    let s' = alarm_ready s in
    let left = seconds_left (s'.expires (s'.alarm s'.current)) (now_of s') in
    if seconds == 0 then some (left, alarm_clear s') else left_with left (alarm_set fuel seconds s')

-- How far `sys_nanosleep` has come.
pub data Nap : Type 0 where
  invalid no_rounds : Nap
  asleep : ℕ → Timers → Nap

abbrev pub asleep_until : ℕ → Option Timers → Nap
asleep_until when none = no_rounds
asleep_until when (some s) = asleep when s

-- `(long)req->tv_sec < 0 || req->tv_nsec < 0 || req->tv_nsec > 999999999`
pub is_bad_time : ℤ → ℤ → Bool
is_bad_time sec (negsuc n) = true
is_bad_time sec (pos nsec) = elim (to_long sec) [ pos n ↦ ltb 999999999 nsec | negsuc n ↦ true ]

-- The low 32 bits.
abbrev pub unsigned_long : ℤ → ℕ
unsigned_long (pos n) = n % 2 ^ 32
unsigned_long (negsuc n) = 2 ^ 32 - 1 - n % 2 ^ 32

pub msecs_of : ℤ → ℤ → ℕ
msecs_of sec nsec = (unsigned_long sec * 1000 % 2 ^ 32 + unsigned_long nsec / 1000000) % 2 ^ 32

-- `sys_nanosleep` up to the call of `scheduler`: the event `tm` lies on the stack.
unfoldable pub sys_nanosleep : ℕ → ℕ → ℤ → ℤ → Timers → Nap
unfolding is_bad_time msecs_of msecs_to_ticks timer_event_init timer_event_add list_insert_before
sys_nanosleep fuel tm sec nsec s =
    let t = s.current in
    let s1 = record s { tasks = put_task s.tasks t (record (s.tasks t) { state = sleeping }) } in
    let when = (s.timer_ticks + msecs_to_ticks (msecs_of sec nsec)) % 2 ^ 32 in
    let s2 = timer_event_init tm sleep_timer_handler t when s1 in
    let s3 = record s2 { plinks = list_insert_before (s2.timers t) tm s2.plinks } in
    if is_bad_time sec nsec then invalid else asleep_until when (timer_event_add fuel tm s3)

-- The rest of it, once the task runs again: `some` of the seconds and nanoseconds that are left for
-- -EINTR.
unfoldable pub nanosleep_wake : ℕ → ℕ → Timers → Option (ℕ × ℕ) × Timers
unfolding ticks_to_msecs list_delete
nanosleep_wake tm when s =
    let s' = record s { links = list_delete tm s.links; plinks = list_delete tm s.plinks } in
    let ms = ticks_to_msecs (when - now_of s) % 2 ^ 32 in
    if ltb (now_of s) when then (some (ms / 1000, ms % 1000 * 1000000), s') else (none, s')
