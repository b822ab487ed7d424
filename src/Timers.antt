-- ===== src/Timers.antt =====
-- kernel/src/timer.c and timer.h: the queue of timed events; kernel/src/sys/sys_alarm.c and
-- sys_nanosleep.c: what they call when their time has come. The event that refreshes the screen in
-- kernel/src/driver/tty.c is left out.

pub mod Inserts
pub mod Expiry
pub mod Stuck
pub mod Calls
mod Tests
use beeos.Prelude.{
  ℕ, zero, suc, ◌+◌, ◌-◌, ◌*◌, ◌/◌, ◌%◌, ◌^◌, Bool, true, false, not, ◌||◌, Option, none, some,
  List, [], ◌∷◌, leb, ltb, ◌==◌, if◌then◌else◌,
}
use beeos.Prelude.Int.{ℤ, pos, negsuc}
use beeos.Links.{Links, list_init, list_insert_before, list_delete, list_empty}
use beeos.Signals.{Task, State, running, sleeping, task_signal}

-- The functions that the events of alarms and sleeps call. `refresh_func`, which also puts its event
-- back on the queue, is not among them.
pub data Handler : Type 0 where
  no_handler alarm_handler sleep_timer_handler : Handler

-- `links` is the memory of the `link` fields and of the queue's head `events`, `plinks` that of the
-- `plink` fields and of the heads `timers` of the tasks. An event is its address. `alarm t` and
-- `timers t` are the addresses of these fields of the task `t`.
pub record Timers : Type 0 where
  pub links : Links
  pub plinks : Links
  pub events : ℕ
  pub expires : ℕ → ℕ
  pub func : ℕ → Handler
  pub data_of : ℕ → ℕ
  pub alarm : ℕ → ℕ
  pub timers : ℕ → ℕ
  pub timer_ticks : ℕ
  pub tasks : ℕ → Task
  pub counter : ℕ → ℤ
  pub current : ℕ
  pub need_resched : Bool

abbrev pub sigalrm : ℕ
sigalrm = 14

abbrev pub put_task : (ℕ → Task) → ℕ → Task → ℕ → Task
put_task f t v = λ q. if q == t then v else f q

-- `tm->func(tm->data)`
unfoldable pub call : Handler → ℕ → Timers → Timers
unfolding list_delete task_signal
call no_handler t s = s
call alarm_handler t s = record s {
  plinks = list_delete (s.alarm t) s.plinks;
  tasks = put_task s.tasks t (task_signal (s.tasks t) sigalrm);
}
call sleep_timer_handler t s = record s {
  tasks = put_task s.tasks t (record (s.tasks t) { state = running });
}

-- The loop of `timer_event_add`.
pub find_later : ℕ → Timers → ℕ → ℕ → Option ℕ
find_later zero s tm curr = none
find_later (suc n) s tm curr =
    let rest = find_later n s tm (s.links.next curr) in
    if curr == s.events
    then some curr
    else if ltb (s.expires tm) (s.expires curr)
    then some curr
    else rest

abbrev pub insert_at : Timers → ℕ → Option ℕ → Option Timers
insert_at s tm none = none
insert_at s tm (some curr) = some (record s { links = list_insert_before curr tm s.links })

unfoldable pub timer_event_add : ℕ → ℕ → Timers → Option Timers
unfolding find_later
timer_event_add fuel tm s = insert_at s tm (find_later fuel s tm (s.links.next s.events))

unfoldable pub timer_event_del : ℕ → Timers → Timers
timer_event_del tm s = record s { links = list_delete tm s.links }

abbrev pub expire_at : ℕ → ℕ → Timers → Timers
expire_at tm expires s = record s { expires = λ q. if q == tm then expires else s.expires q }

unfoldable pub timer_event_mod : ℕ → ℕ → ℕ → Timers → Option Timers
unfolding timer_event_add
timer_event_mod fuel tm expires s = timer_event_add fuel tm (expire_at tm expires s)

unfoldable pub timer_event_init : ℕ → Handler → ℕ → ℕ → Timers → Timers
unfolding list_init
timer_event_init tm fn data_of expires s = record s {
  links = list_init tm s.links;
  plinks = list_init tm s.plinks;
  func = λ q. if q == tm then fn else s.func q;
  data_of = λ q. if q == tm then data_of else s.data_of q;
  expires = λ q. if q == tm then expires else s.expires q;
}

-- `list_delete(&tm->link); tm->func(tm->data);`
pub fire : ℕ → Timers → Timers
unfolding call list_delete
fire tm s = call (s.func tm) (s.data_of tm) (record s { links = list_delete tm s.links })

-- The loop of `timer_update`.
pub timer_walk : ℕ → Timers → ℕ → Option Timers
unfolding fire
timer_walk zero s curr = none
timer_walk (suc n) s curr =
    let s' = if leb (s.expires curr) s.timer_ticks then fire curr s else s in
    let rest = timer_walk n s' (s.links.next curr) in if curr == s.events then some s else rest

-- A 32-bit `i - 1`.
abbrev pub less : ℤ → ℤ
less (pos zero) = negsuc 0
less (pos (suc n)) = pos n
less (negsuc n) = if n == 2 ^ 31 - 1 then pos (2 ^ 31 - 1) else negsuc (suc n)

-- `i <= 0`
abbrev pub is_used_up : ℤ → Bool
is_used_up (pos n) = n == 0
is_used_up (negsuc n) = true

-- `if (current->counter-- <= 0) need_resched = 1;`
pub account : Timers → Timers
account s =
    let c = s.counter s.current in
    record s {
      counter = λ q. if q == s.current then less c else s.counter q;
      need_resched = is_used_up c || s.need_resched;
    }

unfoldable pub timer_update : ℕ → Timers → Option Timers
unfolding timer_walk account
timer_update fuel s = elim (timer_walk fuel s (s.links.next s.events)) [
  | none ↦ none
  | some s' ↦ some (account s')
]

pub timer_init : Timers → Timers
unfolding list_init
timer_init s = record s { links = list_init s.events s.links }

-- A `clock_t` has 64 bits, so neither of the two conversions of an `unsigned long` overflows.
unfoldable pub msecs_to_ticks : ℕ → ℕ
msecs_to_ticks msecs = (msecs + 9) / 10

unfoldable pub ticks_to_msecs : ℕ → ℕ
ticks_to_msecs ticks = 10 * ticks
