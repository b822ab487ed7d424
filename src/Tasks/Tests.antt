-- ===== src/Tasks/Tests.antt =====
-- Runs of the scheduler and of a queue on small rings.
use beeos.Prelude.{◌≡◌, [], ◌∷◌, arith, ◌==◌, if◌then◌else◌}
use beeos.Links.{Links, list_init, list_insert_before}
use beeos.Links.Rings.{IsRing, init-IsRing}
use beeos.Links.Inserts.{insert_before-IsRing}
use beeos.Signals.{running, sleeping}
use beeos.Tasks.{Tasks, Ids, cond_wait, cond_signal}
use beeos.Tasks.Choices.{Scheduled, scheduler-Scheduled}
use beeos.Tasks.Waits.{Woken, cond_broadcast-Woken, cond_signal-cond_wait}
use beeos.Tasks.Users.{IsPlain, after, after-IsPlain}

abbrev memory : Links
memory = record { prev = λ q. 0; next = λ q. 0 }

abbrev ring : Links
ring = list_insert_before 5 6 (list_init 5 memory)

ring-IsRing : IsRing ring 5 (6 ∷ [])
ring-IsRing =
    insert_before-IsRing (list_init 5 memory) 5 6 [] (init-IsRing memory 5) ((λ e. cc), tt)

-- The task at 5 runs, 6 could, and 6 is on the queue at 5.
abbrev both : Tasks
both = record {
  tasks = ring;
  condw = ring;
  state = λ t. if t == 6 then running else sleeping;
  pid = λ t. t;
  pgid = λ t. t;
  counter = λ t. 0;
  usage = λ t. 0;
  current = 5;
  ktask = 9;
  prev_clock = 0;
}

scheduler-Scheduled_example : Scheduled 2 7 both (6 ∷ [])
scheduler-Scheduled_example = scheduler-Scheduled 2 7 both (6 ∷ []) ring-IsRing (omega arith)

cond_broadcast-Woken_example : Woken 2 5 both (6 ∷ [])
cond_broadcast-Woken_example = cond_broadcast-Woken 2 5 both (6 ∷ []) ring-IsRing (omega arith)

abbrev waiting : Tasks
waiting = record both { current = 7 }

cond_signal-cond_wait_example :
    IsRing (cond_signal 5 (cond_wait 5 waiting)).condw 5 (7 ∷ [])
    × ((cond_signal 5 (cond_wait 5 waiting)).state 6 ≡ running)
    × ((cond_signal 5 (cond_wait 5 waiting)).state 7 ≡ sleeping)
cond_signal-cond_wait_example =
    cond_signal-cond_wait 5 waiting 6 [] ring-IsRing ((λ e. cc), ((λ e. cc), tt))

abbrev user : Ids
user = record { uid = 3; euid = 4; suid = 5 }

user-IsPlain : IsPlain user
user-IsPlain = record { uid = λ e. cc; euid = λ e. cc; suid = λ e. cc }

after-IsPlain_example : IsPlain (after (0 ∷ 5 ∷ []) user)
after-IsPlain_example = after-IsPlain (0 ∷ 5 ∷ []) user user-IsPlain
