-- ===== src/Tasks.antt =====
-- kernel/src/proc/scheduler.c: the choice of the next task; kernel/src/sync/cond.c: tasks that wait;
-- kernel/src/sys/sys_setuid.c, sys_setgid.c, sys_getpgid.c: what tasks are. A task is its address;
-- the switch to the other stack is outside of the model.

pub mod Choices
pub mod Waits
pub mod Users
mod Tests
use beeos.Prelude.{
  ℕ, zero, suc, ◌+◌, ◌-◌, ◌^◌, ◌%◌, Bool, true, false, not, ◌&&◌, ◌||◌, Option, none, some, List,
  [], ◌∷◌, leb, ltb, ◌==◌, if◌then◌else◌,
}
use beeos.Links.{Links, list_init, list_insert_before, list_delete, list_empty}
use beeos.Signals.{State, running, sleeping, zombie}
use beeos.Timers.{msecs_to_ticks}

abbrev pub sched_timeslice : ℕ
sched_timeslice = 100

-- `tasks` is the memory of the links by that name, `condw` that of these links and of the heads of
-- condition variables. `ktask` is the task that idles.
pub record Tasks : Type 0 where
  pub tasks : Links
  pub condw : Links
  pub state : ℕ → State
  pub pid : ℕ → ℕ
  pub pgid : ℕ → ℕ
  pub counter : ℕ → ℕ
  pub usage : ℕ → ℕ
  pub current : ℕ
  pub ktask : ℕ
  pub prev_clock : ℕ

pub is_running : State → Bool
is_running running = true
is_running sleeping = false
is_running zombie = false

abbrev pub set_state : ℕ → State → Tasks → Tasks
set_state t v s = record s { state = λ q. if q == t then v else s.state q }

-- The loop of `scheduler`.
unfoldable pub next_task : ℕ → Tasks → ℕ → Option ℕ
unfolding is_running
next_task zero s next = none
next_task (suc n) s next =
    let rest = next_task n s (s.tasks.next next) in
    if is_running (s.state next) || (next == s.current) then some next else rest

-- The rest of it, at the time `timer_ticks`.
abbrev pub switch_to : ℕ → ℕ → Tasks → Tasks
switch_to timer_ticks next s =
    let s' = if next == s.current then set_state s.ktask running s else s in
    let next' = if next == s.current then s.ktask else next in
    record s' {
      usage = λ q. if q == s.current then s.usage q + (timer_ticks - s.prev_clock) else s.usage q;
      prev_clock = timer_ticks;
      current = next';
      counter = λ q. if q == next' then msecs_to_ticks sched_timeslice else s.counter q;
    }

unfoldable pub scheduler : ℕ → ℕ → Tasks → Option Tasks
unfolding next_task msecs_to_ticks
scheduler fuel timer_ticks s = elim (next_task fuel s (s.tasks.next s.current)) [
  | none ↦ none
  | some next ↦ some (switch_to timer_ticks next s)
]

pub cond_init : ℕ → Tasks → Tasks
unfolding list_init
cond_init queue s = record s { condw = list_init queue s.condw }

-- `cond_wait` up to the call of `scheduler`; `condw t` of the task `t` is at the address `t`.
unfoldable pub cond_wait : ℕ → Tasks → Tasks
unfolding list_insert_before
cond_wait queue s =
    set_state s.current sleeping (record s { condw = list_insert_before queue s.current s.condw })

unfoldable pub cond_signal : ℕ → Tasks → Tasks
unfolding list_empty list_delete
cond_signal queue s =
    let t = s.condw.next queue in
    if list_empty queue s.condw
    then s
    else set_state t running (record s { condw = list_delete t s.condw })

pub cond_broadcast : ℕ → ℕ → Tasks → Option Tasks
unfolding cond_signal list_empty
cond_broadcast zero queue s = none
cond_broadcast (suc n) queue s =
    let rest = cond_broadcast n queue (cond_signal queue s) in
    if list_empty queue s.condw then some s else rest

-- The loop of `sys_getpgid`, and with `none` for -ESRCH.
pub find_pid : ℕ → Tasks → ℕ → ℕ → Option (Option ℕ)
find_pid zero s pid curr = none
find_pid (suc n) s pid curr =
    let next = s.tasks.next curr in
    let rest = find_pid n s pid next in
    if s.pid curr == pid
    then some (some (s.pgid curr))
    else if next == s.current
    then some none
    else rest

pub sys_getpgid : ℕ → ℕ → Tasks → Option (Option ℕ)
unfolding find_pid
sys_getpgid fuel pid s = find_pid fuel s (if pid == 0 then s.pid s.current else pid) s.current

-- The user or the group of a task.
pub record Ids : Type 0 where
  pub uid : ℕ
  pub euid : ℕ
  pub suid : ℕ

-- `sys_setuid`, and `sys_setgid` with the same text for groups: `false` for EPERM.
unfoldable pub sys_setuid : ℕ → Ids → Bool × Ids
sys_setuid uid t =
    if t.euid == 0
    then (true, record { uid = uid; euid = uid; suid = uid })
    else if (t.uid == uid) || (t.suid == uid)
    then (true, record t { euid = uid })
    else (false, t)
