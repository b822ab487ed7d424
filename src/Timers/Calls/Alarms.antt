-- ===== src/Timers/Calls/Alarms.antt =====
-- kernel/src/sys/sys_alarm.c: an alarm that is set and taken back.
use beeos.Prelude.{
  ℕ, ◌+◌, ◌*◌, ◌^◌, ◌<◌, ◌≡◌, refl, sym, ap, ◌∙◌, ◌≢◌, true, false, some, List, [], ◌∷◌, ◌++◌,
  append-nil, length, All, All-both, arith, ◌==◌,
}
use beeos.Links.{Links, list_insert_before, list_delete, list_empty}
use beeos.Links.Rings.{IsRing, Fresh, Distinct}
use beeos.Links.Deletes.{delete-IsRing, Distinct-Parted}
use beeos.Links.Inserts.{insert_before-IsRing}
use beeos.Links.Middle.{front, next-front, ne-head}
use beeos.Timers.{
  Timers, alarm_handler, expire_at, timer_event_add, timer_event_del, timer_event_mod,
  msecs_to_ticks, ticks_to_msecs,
}
use beeos.Timers.Inserts.{Sorted, IsQueue, timer_event_add-Added}
use beeos.Timers.Calls.{
  now_of, alarm_ready, seconds_left, alarm_time, alarm_set, alarm_clear, join_task, join_task_after,
  sys_alarm,
}

Sorted-frame : (e f : ℕ → ℕ) (xs : List ℕ) → All (λ x. f x ≡ e x) xs → Sorted e xs → Sorted f xs
unfolding Sorted
Sorted-frame e f [] all o = tt
Sorted-frame e f (x ∷ xs) (fx, all) (ox, o) =
    (All-both (λ y eq le. omega (arith, fx, eq, le)) xs all ox, Sorted-frame e f xs all o)

-- The time of an event that is not on the queue does not matter to the queue.
expire_at-IsQueue :
    (tm expires : ℕ) (s : Timers) (xs : List ℕ)
    → IsQueue s xs
    → Fresh tm xs
    → IsQueue (expire_at tm expires s) xs
expire_at-IsQueue tm expires s xs q fresh = record {
  ring = q.ring;
  sorted =
      Sorted-frame s.expires (expire_at tm expires s).expires xs
        (All-both (λ x ne ne2. ground (arith, ne)) xs fresh fresh) q.sorted;
}

front-ne :
    (h : Links) (a : ℕ) (xs : List ℕ) (x : ℕ) (ys : List ℕ)
    → IsRing h a (xs ++ (x ∷ ys))
    → front a ys ≢ x
unfolding Distinct
front-ne h a xs x [] r = λ e. ne-head h a xs x [] r (sym e)
front-ne h a xs x (y ∷ ys) r = (Distinct-Parted xs x (y ∷ ys) r.distinct.1).back_x.0

-- A node of a list is not a list of its own.
empty-of_ring :
    (h : Links) (a : ℕ) (xs : List ℕ) (x : ℕ) (ys : List ℕ)
    → IsRing h a (xs ++ (x ∷ ys))
    → list_empty x h ≡ false
unfolding list_empty
empty-of_ring h a xs x ys r =
    let ne = front-ne h a xs x ys r in
    let next = next-front h a xs x ys r in ground (arith, next, ne)

alarm_time-exact :
    (s : Timers) (n : ℕ)
    → n * 1000 < 2 ^ 32
    → now_of s + 100 * n < 2 ^ 32
    → alarm_time (now_of s) n ≡ now_of s + 100 * n
unfolding alarm_time msecs_to_ticks
alarm_time-exact s n small fits = ground arith

expires-expire_at : (tm expires : ℕ) (s : Timers) → (expire_at tm expires s).expires tm ≡ expires
expires-expire_at tm expires s = ground arith

seconds_left-exact : (now n : ℕ) → seconds_left (now + 100 * n) now ≡ n
unfolding seconds_left ticks_to_msecs
seconds_left-exact now n = ground arith

alarm_ready-used : (s : Timers) → s.func (s.alarm s.current) ≡ alarm_handler → alarm_ready s ≡ s
unfolding alarm_ready
alarm_ready-used s e = rw e refl

clear-pending :
    (s : Timers)
    → list_empty (s.alarm s.current) s.links ≡ false
    → list_empty (s.alarm s.current) s.plinks ≡ false
    → alarm_clear s ≡ record s {
      links = list_delete (s.alarm s.current) s.links;
      plinks = list_delete (s.alarm s.current) s.plinks;
    }
unfolding alarm_clear timer_event_del
clear-pending s queued owned = rw (queued, owned) refl

clear-idle :
    (s : Timers)
    → list_empty (s.alarm s.current) s.links ≡ true
    → list_empty (s.alarm s.current) s.plinks ≡ true
    → alarm_clear s ≡ s
unfolding alarm_clear
clear-idle s idle alone = rw (idle, alone) refl

sys_alarm-clear :
    (fuel n : ℕ) (s : Timers)
    → s.func (s.alarm s.current) ≡ alarm_handler
    → s.expires (s.alarm s.current) ≡ now_of s + 100 * n
    → sys_alarm fuel 0 s ≡ some (n, alarm_clear s)
unfolding sys_alarm
sys_alarm-clear fuel n s f e = rw (alarm_ready-used s f, e, seconds_left-exact (now_of s) n) refl

alarm_set-Added :
    (fuel n : ℕ) (s : Timers) (r : Timers)
    → list_empty (s.alarm s.current) s.plinks ≡ true
    → let tm = s.alarm s.current in
      let s1 = expire_at tm (alarm_time (now_of s) n) s in
      timer_event_add fuel tm s1 ≡ some r
      → r ≡ record s1 { links = r.links }
      → alarm_set fuel n s
        ≡ some (record s1 {
          links = r.links;
          plinks = list_insert_before (s.timers s.current) tm s.plinks;
        })
unfolding alarm_set timer_event_mod
alarm_set-Added fuel n s r alone adds shape =
    let tm = s.alarm s.current in
    let s1 = expire_at tm (alarm_time (now_of s) n) s in
    ap (join_task_after tm) adds
    ∙ ap (λ (t : Timers). some (join_task tm t)) shape
    ∙ (rw alone refl)

sys_alarm-set :
    (fuel n : ℕ) (s s' : Timers)
    → s.func (s.alarm s.current) ≡ alarm_handler
    → 0 < n
    → alarm_set fuel n s ≡ some s'
    → sys_alarm fuel n s ≡ some (seconds_left (s.expires (s.alarm s.current)) (now_of s), s')
unfolding sys_alarm
sys_alarm-set fuel n s s' f positive e =
    let ne : (n == 0) ≡ false = ground arith in rw (alarm_ready-used s f, ne, e) refl

-- The current task has used its alarm before, and it is neither on the queue `xs` nor among the
-- task's timers `ps`.
pub record IsUnset (s : Timers) (xs ps : List ℕ) : Type 0 where
  pub used : s.func (s.alarm s.current) ≡ alarm_handler
  pub queue : IsQueue s xs
  pub fresh : Fresh (s.alarm s.current) (s.events ∷ xs)
  pub owned : IsRing s.plinks (s.timers s.current) ps
  pub fresh_owned : Fresh (s.alarm s.current) (s.timers s.current ∷ ps)
  pub alone : list_empty (s.alarm s.current) s.plinks ≡ true

-- An alarm for `n` seconds, and then one for 0, and one more.
pub record Cancelled (fuel n : ℕ) (s : Timers) (xs ps : List ℕ) : Type 0 where
  pub left : ℕ
  pub set : Timers
  pub sets : sys_alarm fuel n s ≡ some (left, set)
  pub cleared : Timers
  pub clears : sys_alarm fuel 0 set ≡ some (n, cleared)
  pub unset : IsUnset cleared xs ps
  pub repeats : sys_alarm fuel 0 cleared ≡ some (n, cleared)

-- With more rounds than there are events on the queue, and where the current task has used its alarm
-- before and it is not pending, an alarm of a positive number of seconds that overflows neither in milliseconds nor in ticks is taken back by `sys_alarm(0)` at the same tick,
-- which returns that number and leaves the queue and the task's timers as they were; and a further
-- `sys_alarm(0)` returns the number again.
pub sys_alarm-Cancelled :
    (fuel n : ℕ) (s : Timers) (xs ps : List ℕ)
    → IsUnset s xs ps
    → 0 < n
    → n * 1000 < 2 ^ 32
    → now_of s + 100 * n < 2 ^ 32
    → length xs < fuel
    → Cancelled fuel n s xs ps
sys_alarm-Cancelled fuel n s xs ps u positive small fits l =
    let tm = s.alarm s.current in
    let s1 = expire_at tm (alarm_time (now_of s) n) s in
    let q1 = expire_at-IsQueue tm (alarm_time (now_of s) n) s xs u.queue u.fresh.1 in
    let a = timer_event_add-Added fuel s1 tm xs q1 u.fresh l in
    let events : a.result.events ≡ s.events = ap (λ (t : Timers). t.events) a.rest in
    let ring : IsRing a.result.links s.events (a.passed ++ (tm ∷ a.later)) =
      rw events at a.queue.ring in
    let own = insert_before-IsRing s.plinks (s.timers s.current) tm ps u.owned u.fresh_owned in
    let own' : IsRing (list_insert_before (s.timers s.current) tm s.plinks) (s.timers s.current)
        (ps ++ (tm ∷ [])) =
      own in
    let set = record s1 {
      links = a.result.links;
      plinks = list_insert_before (s.timers s.current) tm s.plinks;
    } in
    let cleared = record set {
      links = list_delete tm set.links;
      plinks = list_delete tm set.plinks;
    } in
    let (off, off_node, off_empty) = delete-IsRing set.links s.events a.passed tm a.later ring in
    let (off_own, own_node, own_empty) =
      delete-IsRing set.plinks (s.timers s.current) ps tm [] own' in
    let later : s1.expires tm ≡ now_of s + 100 * n =
      expires-expire_at tm (alarm_time (now_of s) n) s ∙ alarm_time-exact s n small fits in
    let gone =
      clear-pending set (empty-of_ring set.links s.events a.passed tm a.later ring)
        (empty-of_ring set.plinks (s.timers s.current) ps tm [] own') in
    record {
      left = seconds_left (s.expires tm) (now_of s);
      set = set;
      sets =
          sys_alarm-set fuel n s set u.used positive
            (alarm_set-Added fuel n s a.result u.alone a.adds a.rest);
      cleared = cleared;
      clears = sys_alarm-clear fuel n set u.used later ∙ ap (λ (t : Timers). some (n, t)) gone;
      unset = record {
        used = u.used;
        queue = record { ring = rw (sym a.parts) at off; sorted = q1.sorted };
        fresh = u.fresh;
        owned = rw append-nil at off_own;
        fresh_owned = u.fresh_owned;
        alone = own_empty;
      };
      repeats =
          sys_alarm-clear fuel n cleared u.used later
          ∙ ap (λ (t : Timers). some (n, t)) (clear-idle cleared off_empty own_empty);
    }
