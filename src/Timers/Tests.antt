-- ===== src/Timers/Tests.antt =====
-- Runs of the timers and of the calls that use them on small queues.
use beeos.Prelude.{◌<◌, ◌+◌, ◌*◌, refl, false, none, [], ◌∷◌, arith}
use beeos.Prelude.Int.{pos}
use beeos.Links.{Links, list_init, list_insert_before, list_empty}
use beeos.Links.Rings.{IsRing, init-IsRing}
use beeos.Links.Inserts.{insert_before-IsRing}
use beeos.Signals.{Task, running}
use beeos.Timers.{Timers, alarm_handler}
use beeos.Timers.Inserts.{Sorted, IsQueue, Added, timer_event_add-Added}
use beeos.Timers.Stuck.{Stuck, timer_event_mod-Stuck}
use beeos.Timers.Calls.{sys_nanosleep, nanosleep_wake}
use beeos.Timers.Calls.Alarms.{IsUnset, Cancelled, sys_alarm-Cancelled}
use beeos.Timers.Calls.Naps.{nanosleep_wake-sys_nanosleep}

abbrev memory : Links
memory = record { prev = λ q. 0; next = λ q. 0 }

abbrev process : Task
process = record {
  pid = 3;
  state = running;
  queued = false;
  sigpend = λ k. false;
  sigmask = λ k. false;
  signals = λ k. record { handler = 0; mask = λ j. false; flags = 0; restorer = 0 };
  ifr = record { eax = 0; eip = 0; usr_esp = 0; rest = [] };
  sfr = none;
  stack = λ q. 0;
}

-- A queue at 100 with the event at 1, and the alarm of every task at 9.
abbrev one : Timers
one = record {
  links = list_insert_before 100 1 (list_init 100 memory);
  plinks = list_init 200 (list_init 9 memory);
  events = 100;
  expires = λ q. 40 + q * 8;
  func = λ q. alarm_handler;
  data_of = λ q. 0;
  alarm = λ t. 9;
  timers = λ t. 200;
  timer_ticks = 50;
  tasks = λ t. process;
  counter = λ t. pos 5;
  current = 0;
  need_resched = false;
}

-- With a further event at 2, which is not due.
abbrev two : Timers
two = record one { links = list_insert_before 100 2 one.links }

one-IsRing : IsRing one.links 100 (1 ∷ [])
one-IsRing =
    insert_before-IsRing (list_init 100 memory) 100 1 [] (init-IsRing memory 100) ((λ e. cc), tt)

one-IsQueue : IsQueue one (1 ∷ [])
unfolding Sorted
one-IsQueue = record { ring = one-IsRing; sorted = (tt, tt) }

two-IsQueue : IsQueue two (1 ∷ 2 ∷ [])
unfolding Sorted
two-IsQueue = record {
  ring = insert_before-IsRing one.links 100 2 (1 ∷ []) one-IsRing ((λ e. cc), ((λ e. cc), tt));
  sorted = ((omega arith, tt), (tt, tt));
}

one-IsUnset : IsUnset one (1 ∷ []) []
unfolding list_empty list_init
one-IsUnset = record {
  used = refl;
  queue = one-IsQueue;
  fresh = ((λ e. cc), ((λ e. cc), tt));
  owned = init-IsRing (list_init 9 memory) 200;
  fresh_owned = ((λ e. cc), tt);
  alone = refl;
}

timer_event_add-Added_example : Added 2 one 2 (1 ∷ [])
timer_event_add-Added_example =
    timer_event_add-Added 2 one 2 (1 ∷ []) one-IsQueue ((λ e. cc), ((λ e. cc), tt)) (omega arith)

timer_event_mod-Stuck_example : Stuck 2 1 70 one
timer_event_mod-Stuck_example = timer_event_mod-Stuck 0 1 70 one one-IsRing

sys_alarm-Cancelled_example : Cancelled 2 5 one (1 ∷ []) []
sys_alarm-Cancelled_example =
    sys_alarm-Cancelled 2 5 one (1 ∷ []) [] one-IsUnset (omega arith) (omega arith) (omega arith)
      (omega arith)

nanosleep_wake-sys_nanosleep_example :
    50 * 10000000 + 1 * 1000000000 + 500000000 < 200 * 10000000 + 1000000
unfolding sys_nanosleep nanosleep_wake
nanosleep_wake-sys_nanosleep_example =
    nanosleep_wake-sys_nanosleep 2 5 1 500000000 200 one _ (record one { timer_ticks = 200 }) refl
      (omega arith) (omega arith) (omega arith) refl
