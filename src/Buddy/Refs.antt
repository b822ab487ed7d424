-- ===== src/Buddy/Refs.antt =====
-- `buddy_alloc` and `buddy_free` (kernel/src/mm/buddy.c) leave the reference counters alone.
use beeos.Prelude.{
  ℕ, zero, suc, ◌+◌, ◌-◌, ◌^◌, ◌≡◌, refl, inl, inr, none, some, Option, ltb, ◌==◌, if◌then◌else◌,
  Bool-cases,
}
use beeos.Buddy.{
  Buddy, bit, flip, couple, buddy_of, toggle_bit, put, unlink, free_loop, free, find_block, split,
  take_block, alloc,
}

refs-free_loop : (n : ℕ) (s : Buddy) (b o : ℕ) → (free_loop n s b o).refs ≡ s.refs
unfolding free_loop
refs-free_loop zero s b o = refl
refs-free_loop (suc n) s b o =
    let maps' = flip s.maps o (couple (buddy_of b o) o) in
    elim (Bool-cases (bit maps' o (couple (buddy_of b o) o))) [
      | inl alone ↦ rw alone
      | inr both ↦ rw both (
          refs-free_loop n (record s { lists = unlink s.lists o (buddy_of b o); maps = maps' })
            (if ltb (buddy_of b o) b then buddy_of b o else b) (o + 1))
    ]

pub refs-free : (s : Buddy) (b o : ℕ) → (free s b o).refs ≡ s.refs
unfolding free
refs-free s b o = refs-free_loop (s.order_max - o) s b o

refs-split : (n : ℕ) (s : Buddy) (b o : ℕ) → (split n s b o).refs ≡ s.refs
unfolding split
refs-split zero s b o = refl
refs-split (suc n) s b o =
    refs-split n
      (toggle_bit (record s { lists = put s.lists (o + n) (b + 2 ^ (o + n)) }) (b + 2 ^ (o + n))
        (o + n)).0
      b o

refs-take_block : (s : Buddy) (o i b : ℕ) → (take_block s o i b).refs ≡ s.refs
unfolding take_block
refs-take_block s o i b = elim (Bool-cases (i == s.order_max)) [
  | inl e ↦ rw e (refs-split (i - o) (record s { lists = unlink s.lists i b }) b o)
  | inr e ↦ rw e (
      refs-split (i - o)
        (record s { lists = unlink s.lists i b; maps = flip s.maps i (couple b i) }) b o)
]

pub refs-alloc : (s : Buddy) (o : ℕ) → (alloc s o).1.refs ≡ s.refs
unfolding alloc
refs-alloc s o = go (find_block (s.order_max + 1 - o) s.lists o)
  where
    go :
        (r : Option (ℕ × ℕ))
        → (let (b, t) : Option ℕ × Buddy = elim r [
          | none ↦ (none, s)
          | some (i, b) ↦ (some b, take_block s o i b)
        ] in
            t.refs)
          ≡ s.refs
    go none = refl
    go (some (i, b)) = refs-take_block s o i b
