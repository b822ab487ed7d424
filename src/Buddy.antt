-- ===== src/Buddy.antt =====
-- kernel/src/mm/buddy.c: the buddy allocator. A frame is its index in `frames`, a block of order
-- `o` the `2 ^ o` frames from its index on, and a free list is the list of its blocks.
pub mod Cover
pub mod Bits
pub mod Pairs
pub mod Alloc
pub mod Free
pub mod Joins
pub mod Init
pub mod Refs
mod Tests
use beeos.Prelude.{
  ℕ, zero, suc, ◌+◌, ◌-◌, ◌*◌, ◌/◌, ◌%◌, ◌^◌, Bool, not, ◌&&◌, Option, none, some, List, [], ◌∷◌,
  ◌++◌, ltb, ◌==◌, if◌then◌else◌, set, get_or,
}

-- The bitmaps of all orders: order, word, bit of the word. The words behind the ones that `buddy_init`
-- allocates (`map_words` of `Buddy/Init`) are not told from them; `Buddy/Init.couple-map_words` says
-- which one can be used.
abbrev pub BitMap : Type 0
BitMap = ℕ → ℕ → ℕ → Bool

-- `sizeof(unsigned long)` is 4 on x86.
abbrev pub word_bits : ℕ
word_bits = 32

-- `struct buddy_sys`: `lists` and `maps` are the two fields of `free_area`, `refs` the reference
-- counts of `frames`.
pub record Buddy : Type 0 where
  pub order_bit : ℕ
  pub order_max : ℕ
  pub lists : List (List ℕ)
  pub maps : BitMap
  pub refs : List ℕ

abbrev pub bit : BitMap → ℕ → ℕ → Bool
bit m o i = m o (i / word_bits) (i % word_bits)

pub flip : BitMap → ℕ → ℕ → BitMap
flip m o i o' w k =
    if (o' == o) && ((w == i / word_bits) && (k == i % word_bits)) then not (m o' w k) else m o' w k

-- `block_idx >> (order + 1)`, the couple of a block
abbrev pub couple : ℕ → ℕ → ℕ
couple b o = b / 2 ^ (o + 1)

-- The bit after the change is the second component.
pub toggle_bit : Buddy → ℕ → ℕ → Buddy × Bool
toggle_bit s b o =
    let maps' = flip s.maps o (couple b o) in (record s { maps = maps' }, bit maps' o (couple b o))

-- `block_idx ^ (1 << order)`: the exclusive or with one bit sets it or clears it.
pub buddy_of : ℕ → ℕ → ℕ
buddy_of b o = if (b / 2 ^ o) % 2 == 0 then b + 2 ^ o else b - 2 ^ o

-- `list_insert_before` at the head of the list of an order
abbrev pub put : List (List ℕ) → ℕ → ℕ → List (List ℕ)
put ls o b = set ls o (get_or ls o [] ++ (b ∷ []))

pub erase : ℕ → List ℕ → List ℕ
erase b [] = []
erase b (x ∷ xs) = if x == b then xs else x ∷ erase b xs

-- `list_delete` of a frame that is on the list of that order
abbrev pub unlink : List (List ℕ) → ℕ → ℕ → List (List ℕ)
unlink ls o b = set ls o (erase b (get_or ls o []))

-- The loop of `buddy_free`, with the number of rounds to `order_max`, and the insertion after it.
pub free_loop : ℕ → Buddy → ℕ → ℕ → Buddy
unfolding toggle_bit buddy_of
free_loop zero s b o = record s { lists = put s.lists o b }
free_loop (suc n) s b o =
    let buddy = buddy_of b o in
    let (s', alone) = toggle_bit s buddy o in
    let merged =
      free_loop n (record s' { lists = unlink s'.lists o buddy }) (if ltb buddy b then buddy else b)
        (o + 1) in
    if alone then record s' { lists = put s'.lists o b } else merged

unfoldable pub free : Buddy → ℕ → ℕ → Buddy
unfolding free_loop
free s b o = free_loop (s.order_max - o) s b o

-- The first loop of `buddy_alloc`: the first order with a free block, and its first block.
pub find_block : ℕ → List (List ℕ) → ℕ → Option (ℕ × ℕ)
find_block zero ls i = none
find_block (suc n) ls i =
    let rest = find_block n ls (i + 1) in elim (get_or ls i []) [ [] ↦ rest | b ∷ _ ↦ some (i, b) ]

-- The second loop, from order `o + n` down to `o`.
pub split : ℕ → Buddy → ℕ → ℕ → Buddy
unfolding toggle_bit
split zero s b o = s
split (suc n) s b o =
    let right = b + 2 ^ (o + n) in
    let s' = (toggle_bit (record s { lists = put s.lists (o + n) right }) right (o + n)).0 in
    split n s' b o

-- What follows the first loop, for a block `b` of order `i`.
pub take_block : Buddy → ℕ → ℕ → ℕ → Buddy
unfolding toggle_bit split
take_block s o i b =
    let s1 = record s { lists = unlink s.lists i b } in
    let s2 = if i == s.order_max then s1 else (toggle_bit s1 b i).0 in split (i - o) s2 b o

unfoldable pub alloc : Buddy → ℕ → Option ℕ × Buddy
unfolding find_block take_block
alloc s o = elim (find_block (s.order_max + 1 - o) s.lists o) [
  | none ↦ (none, s)
  | some (i, b) ↦ (some b, take_block s o i b)
]
