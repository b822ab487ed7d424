-- ===== src/Buddy/Joins.antt =====
-- `buddy_alloc` of kernel/src/mm/buddy.c leaves no two buddies free where none were.
use beeos.Prelude.{
  ℕ, zero, suc, ◌+◌, ◌-◌, ◌^◌, ◌≤◌, ◌<◌, ◌≡◌, refl, ◌∙◌, true, none, Option, some, [], length,
  arith, get_or, get_or-set_ne, length-set, Bool-cases, inl, inr, ◌==◌, ◌++◌, ◌∷◌,
}
use beeos.Buddy.{Buddy, erase, find_block, split, take_block, alloc}
use beeos.Buddy.Cover.{has}
use beeos.Buddy.Bits.{members, IsJoined, put-IsJoined, unlink-IsJoined}
use beeos.Buddy.Free.{IsValid}
use beeos.Buddy.Alloc.{NoneFree, Finds, find_block-Finds}

-- The lists of the orders that are split are empty before.
split-IsJoined :
    (n : ℕ) (s : Buddy) (b o : ℕ)
    → length s.lists ≡ s.order_max + 1
    → o + n ≤ s.order_max
    → NoneFree n s.lists o
    → IsJoined s.order_max s.lists
    → IsJoined s.order_max (split n s b o).lists
unfolding split members
split-IsJoined zero s b o orders le free j = j
split-IsJoined (suc n) s b o orders le free j =
    let right = b + 2 ^ (o + n) in
    let nil = free (o + n) (omega arith) (omega arith) in
    let j' =
      put-IsJoined s.order_max s.lists orders j (o + n) right (omega (arith, le))
        (λ lt. rw nil refl) in
    split-IsJoined n _ b o
      (length-set s.lists (o + n) (get_or s.lists (o + n) [] ++ (right ∷ [])) ∙ orders)
      (omega (arith, le))
      (λ k lo hi.
        get_or-set_ne s.lists (o + n) k (get_or s.lists (o + n) [] ++ (right ∷ [])) []
          (λ e. omega (arith, e, hi))
        ∙ free k lo (omega (arith, hi)))
      j'

take_block-IsJoined :
    (s : Buddy) (o i b : ℕ)
    → length s.lists ≡ s.order_max + 1
    → o ≤ i
    → i ≤ s.order_max
    → has b (get_or s.lists i []) ≡ true
    → NoneFree (i - o) s.lists o
    → IsJoined s.order_max s.lists
    → IsJoined s.order_max (take_block s o i b).lists
unfolding take_block
take_block-IsJoined s o i b orders oi le there free j =
    let rest = erase b (get_or s.lists i []) in
    let orders' = length-set s.lists i rest ∙ orders in
    let free' = λ (k : ℕ) (lo : o ≤ k) (hi : k < o + (i - o)).
      get_or-set_ne s.lists i k rest [] (λ e. omega (arith, e, hi, oi)) ∙ free k lo hi in
    let j' = unlink-IsJoined s.order_max s.lists orders j i b le there in
    elim (Bool-cases (i == s.order_max)) [
      | inl top ↦ rw top (split-IsJoined (i - o) _ b o orders' (omega (arith, oi, le)) free' j')
      | inr below ↦ rw below (split-IsJoined (i - o) _ b o orders' (omega (arith, oi, le)) free' j')
    ]

abbrev IsKept : ℕ → Option ℕ × Buddy → Type 0
IsKept m r = IsJoined m r.1.lists

-- An allocation in a well-formed state leaves no two buddies free below the largest order when none
-- were.
pub alloc-IsJoined :
    (frames : ℕ) (s : Buddy) (o : ℕ)
    → IsValid frames s
    → IsJoined s.order_max s.lists
    → IsJoined s.order_max (alloc s o).1.lists
unfolding alloc
alloc-IsJoined frames s o v j =
    go (find_block (s.order_max + 1 - o) s.lists o)
      (find_block-Finds (s.order_max + 1 - o) s.lists o)
  where
    go :
        (r : Option (ℕ × ℕ))
        → Finds (s.order_max + 1 - o) s.lists o r
        → IsKept s.order_max
            (elim r [ none ↦ (none, s) | some (i, b) ↦ (some b, take_block s o i b) ])
    go none f = j
    go (some (i, b)) f =
        take_block-IsJoined s o i b v.apart.orders f.0 (omega (arith, f.1)) f.2 f.3 j
