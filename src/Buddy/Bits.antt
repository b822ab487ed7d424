-- ===== src/Buddy/Bits.antt =====
-- The bitmaps of kernel/src/mm/buddy.c: the bit of a couple of buddies tells whether an odd number
-- of the two is free.
use native.Mathlib.Decide.{ℕ_discrete}
use beeos.Prelude.{
  ℕ, ◌+◌, ◌%◌, ◌≤◌, ◌<◌, ◌≡◌, Bool, true, false, not, Bool-cases, inl, inr, ◌&&◌, List, [], ◌∷◌,
  ◌++◌, arith, ◌==◌, if◌then◌else◌, length, set, get_or, get_or-set_self, get_or-set_ne,
}
use beeos.Buddy.{BitMap, bit, flip, couple, erase, put, unlink}
use beeos.Buddy.Cover.{has}

-- How many blocks of order `o` belong to a couple.
unfoldable pub members : ℕ → ℕ → List ℕ → ℕ
members o j [] = 0
members o j (b ∷ bs) = (if couple b o == j then 1 else 0) + members o j bs

abbrev pub odd : ℕ → Bool
odd n = n % 2 == 1

-- Below the largest order each bit is set exactly when one of the two blocks is free.
abbrev pub BitsMatch : ℕ → List (List ℕ) → BitMap → Type 0
BitsMatch m ls maps = (o j : ℕ) → o < m → bit maps o j ≡ odd (members o j (get_or ls o []))

pub bit-flip :
    (m : BitMap) (o i o' j : ℕ)
    → bit (flip m o i) o' j ≡ (if (o' == o) && (j == i) then not (bit m o' j) else bit m o' j)
unfolding flip
bit-flip m o i o' j = ground arith

members-append :
    (o j : ℕ) (xs : List ℕ) (b : ℕ)
    → members o j (xs ++ (b ∷ [])) ≡ members o j xs + (if couple b o == j then 1 else 0)
unfolding members
members-append o j [] b = omega arith
members-append o j (x ∷ xs) b = omega (arith, members-append o j xs b)

members-erase :
    (o j b : ℕ) (xs : List ℕ)
    → has b xs ≡ true
    → members o j (erase b xs) + (if couple b o == j then 1 else 0) ≡ members o j xs
unfolding members erase
members-erase o j b [] h = cc
members-erase o j b (x ∷ xs) h = ground (arith, members-erase o j b xs)

module _ (m : ℕ) (ls : List (List ℕ)) (maps : BitMap) (orders : length ls ≡ m + 1)
    (match : BitsMatch m ls maps) (o b : ℕ) (le : o ≤ m) where
  -- Changing one list of a couple's order by one member goes with a change of the couple's bit.
  flip-BitsMatch :
      (l : List ℕ) (i : ℕ)
      → i ≡ couple b o
      → ((j : ℕ)
          → odd (members o j l) ≡ (
              if couple b o == j
              then not (odd (members o j (get_or ls o [])))
              else odd (members o j (get_or ls o []))))
      → BitsMatch m (set ls o l) (flip maps o i)
  flip-BitsMatch l i e change o' j lt = elim (ℕ_discrete o o') [
    | yes same ↦
        rw (← same, get_or-set_self ls o l [] (omega (arith, orders)), bit-flip, change j)
          (ground (arith, match o j))
    | no other ↦ rw (get_or-set_ne ls o o' l [] other, bit-flip) (ground (arith, match o' j))
  ]

  pub top-BitsMatch : (l : List ℕ) → o ≡ m → BitsMatch m (set ls o l) maps
  top-BitsMatch l e o' j lt = rw (get_or-set_ne ls o o' l [] (omega arith)) (match o' j lt)

  pub put-BitsMatch : (i : ℕ) → i ≡ couple b o → BitsMatch m (put ls o b) (flip maps o i)
  put-BitsMatch i e =
      flip-BitsMatch (get_or ls o [] ++ (b ∷ [])) i e λ j. rw members-append (ground arith)

  pub unlink-BitsMatch :
      (i : ℕ)
      → i ≡ couple b o
      → has b (get_or ls o []) ≡ true
      → BitsMatch m (unlink ls o b) (flip maps o i)
  unlink-BitsMatch i e h =
      flip-BitsMatch (erase b (get_or ls o [])) i e
        λ j. ground (arith, members-erase o j b (get_or ls o []) h)

-- Below the largest order no two buddies are both free: they would have been joined.
abbrev pub IsJoined : ℕ → List (List ℕ) → Type 0
IsJoined m ls = (o j : ℕ) → o < m → members o j (get_or ls o []) ≤ 1

module _ (m : ℕ) (ls : List (List ℕ)) (orders : length ls ≡ m + 1) (joined : IsJoined m ls)
    (o b : ℕ) (le : o ≤ m) where
  -- A list whose couples have no more members than before, or which is that of the largest order.
  set-IsJoined : (l : List ℕ) → ((j : ℕ) → o < m → members o j l ≤ 1) → IsJoined m (set ls o l)
  set-IsJoined l few o' j lt = elim (ℕ_discrete o o') [
    | yes same ↦
        let low : o < m = omega (arith, lt, same) in
        rw (← same, get_or-set_self ls o l [] (omega (arith, orders))) (few j low)
    | no other ↦ rw (get_or-set_ne ls o o' l [] other) (joined o' j lt)
  ]

  -- The couple's bit was clear, so that its other block is not free.
  pub put-IsJoined :
      (o < m → odd (members o (couple b o) (get_or ls o [])) ≡ false) → IsJoined m (put ls o b)
  put-IsJoined clear = set-IsJoined (get_or ls o [] ++ (b ∷ [])) λ j lt.
      let before = joined o j lt in
      let none_free = clear lt in rw members-append (few j before none_free)
    where
      few :
          (j : ℕ)
          → members o j (get_or ls o []) ≤ 1
          → odd (members o (couple b o) (get_or ls o [])) ≡ false
          → members o j (get_or ls o []) + (if couple b o == j then 1 else 0) ≤ 1
      few j before none_free = elim (Bool-cases (couple b o == j)) [
        | inl same ↦
            let e : couple b o ≡ j = ground (arith, same) in
            let clear_j = rw e at none_free in ground (arith, same, clear_j, before)
        | inr differ ↦ ground (arith, differ, before)
      ]

  pub unlink-IsJoined : has b (get_or ls o []) ≡ true → IsJoined m (unlink ls o b)
  unlink-IsJoined h = set-IsJoined (erase b (get_or ls o [])) λ j lt.
      let before = joined o j lt in omega (arith, members-erase o j b (get_or ls o []) h, before)
