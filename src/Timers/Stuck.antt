-- ===== src/Timers/Stuck.antt =====
-- kernel/src/timer.c: `timer_event_mod` of an event that is on the queue.
use beeos.Prelude.{
  ℕ, zero, suc, ◌≡◌, refl, ap, ◌∙◌, ◌≢◌, Bool-cases, inl, inr, none, some, [], ◌∷◌, arith, leb,
}
use beeos.Links.{Links, list_delete, list_insert_before}
use beeos.Links.Rings.{Chain, IsRing}
use beeos.Links.Middle.{ne-head}
use beeos.Timers.{
  Timers, expire_at, fire, find_later, timer_event_add, timer_event_mod, timer_walk, timer_update,
}
use beeos.Timers.Expiry.{fire-keeps}

delete-next : (tm : ℕ) (s : Timers) → (list_delete tm s.links).next tm ≡ tm
unfolding list_delete
delete-next tm s = ground arith

fire-next : (tm : ℕ) (s : Timers) → (fire tm s).links.next tm ≡ tm
fire-next tm s = ap (λ (t : Timers). t.links.next tm) (fire-keeps tm s) ∙ delete-next tm s

fire-events : (tm : ℕ) (s : Timers) → (fire tm s).events ≡ s.events
fire-events tm s = ap (λ (t : Timers). t.events) (fire-keeps tm s)

-- The loop of `timer_update` stays at an event that leads to itself.
walk-stuck :
    (n : ℕ) (s : Timers) (tm : ℕ) → s.links.next tm ≡ tm → tm ≢ s.events → timer_walk n s tm ≡ none
unfolding timer_walk
walk-stuck zero s tm e ne = refl
walk-stuck (suc n) s tm e ne =
    let fired = walk-stuck n (fire tm s) tm (fire-next tm s) (λ k. ne (k ∙ fire-events tm s)) in
    let kept = walk-stuck n s tm e ne in
    elim (Bool-cases (leb (s.expires tm) s.timer_ticks)) [
      | inl is_due ↦
          let step : timer_walk n (fire tm s) (s.links.next tm) ≡ none =
            ap (timer_walk n (fire tm s)) e ∙ fired in
          ground (arith, is_due, ne, step)
      | inr is_later ↦
          let step : timer_walk n s (s.links.next tm) ≡ none = ap (timer_walk n s) e ∙ kept in
          ground (arith, is_later, ne, step)
    ]

-- The links after the only event of the queue was put on it again.
insert-again :
    (h : Links) (a tm : ℕ)
    → h.next a ≡ tm
    → h.prev a ≡ tm
    → tm ≢ a
    → ((list_insert_before a tm h).next tm ≡ tm) × ((list_insert_before a tm h).next a ≡ tm)
unfolding list_insert_before
insert-again h a tm n p ne = (ground arith, ground arith)

find_later-sole :
    (n : ℕ) (s : Timers) (tm : ℕ)
    → s.links.next tm ≡ s.events
    → tm ≢ s.events
    → find_later (suc (suc n)) s tm tm ≡ some s.events
unfolding find_later
find_later-sole n s tm e ne = ground arith

pub record Stuck (fuel tm expires : ℕ) (s : Timers) : Type 0 where
  pub result : Timers
  pub modifies : timer_event_mod fuel tm expires s ≡ some result
  pub hangs : (rounds : ℕ) → timer_update rounds result ≡ none

-- `timer_event_mod` of the only event on the queue ends in two rounds, and leaves a queue on which
-- `timer_update` does not end within any number of rounds.
pub timer_event_mod-Stuck :
    (n tm expires : ℕ) (s : Timers)
    → IsRing s.links s.events (tm ∷ [])
    → Stuck (suc (suc n)) tm expires s
unfolding timer_event_mod timer_event_add timer_update Chain
timer_event_mod-Stuck n tm expires s r =
    let ne = ne-head s.links s.events [] tm [] r in
    let (first, last) = r.chain in
    let s1 = expire_at tm expires s in
    let h = list_insert_before s.events tm s.links in
    let again = insert-again s.links s.events tm first.forth last.back ne in
    let found = find_later-sole n s1 tm last.forth ne in
    let finds : find_later (suc (suc n)) s1 tm (s.links.next s.events) ≡ some s.events =
      ap (find_later (suc (suc n)) s1 tm) first.forth ∙ found in
    let result = record s1 { links = h } in
    record {
      result = result;
      modifies = rw (finds, timer_event_mod) refl;
      hangs = λ rounds.
          let walks : timer_walk rounds result (h.next s.events) ≡ none =
            ap (timer_walk rounds result) again.1 ∙ walk-stuck rounds result tm again.0 ne in
          rw (walks, timer_update) refl;
    }
