-- ===== src/Buddy/Cover.antt =====
-- Which frames the free lists of kernel/src/mm/buddy.c cover, and how often.
use native.Mathlib.Nat.{add-zero, zero-add}
use native.Mathlib.Decide.{ℕ_discrete}
use beeos.Prelude.{
  ℕ, zero, suc, ◌+◌, ◌*◌, ◌^◌, ◌≤◌, ◌<◌, ◌≡◌, inl, inr, Bool-cases, All-append, Bool, true, false,
  ◌&&◌, ◌||◌, List, [], ◌∷◌, ◌++◌, arith, leb, ltb, ◌==◌, if◌then◌else◌, length, set, get_or,
  length-set, All, get_or-set_self, get_or-set_ne,
}
use beeos.Buddy.{erase, put, unlink}

-- 1 if the frame `f` lies in the block.
abbrev pub inside : ℕ → ℕ → ℕ → ℕ
inside b o f = if leb b f && ltb f (b + 2 ^ o) then 1 else 0

-- How often the blocks of one order cover a frame.
unfoldable pub covers : ℕ → List ℕ → ℕ → ℕ
covers o [] f = 0
covers o (b ∷ bs) f = inside b o f + covers o bs f

-- How often the lists of the orders from `o` on cover a frame.
unfoldable pub cover : ℕ → List (List ℕ) → ℕ → ℕ
cover o [] f = 0
cover o (l ∷ ls) f = covers o l f + cover (o + 1) ls f

abbrev pub has : ℕ → List ℕ → Bool
has b [] = false
has b (x ∷ xs) = (x == b) || has b xs

-- A block of order `o` starts at a multiple of its size and ends within the frames.
pub record Block (frames o b : ℕ) : Type 0 where
  pub index : ℕ
  pub aligned : b ≡ index * 2 ^ o
  pub within : b + 2 ^ o ≤ frames

-- The free lists are one for each order, hold blocks of that order, and no frame lies in two.
pub record IsApart (frames order_max : ℕ) (ls : List (List ℕ)) : Type 0 where
  pub orders : length ls ≡ order_max + 1
  pub blocks : (o : ℕ) → All (Block frames o) (get_or ls o [])
  pub once : (f : ℕ) → cover 0 ls f ≤ 1

pub covers-append :
    (o : ℕ) (xs : List ℕ) (b f : ℕ) → covers o (xs ++ (b ∷ [])) f ≡ covers o xs f + inside b o f
unfolding covers
covers-append o [] b f = omega arith
covers-append o (x ∷ xs) b f = omega (arith, covers-append o xs b f)

pub covers-erase :
    (o b : ℕ) (xs : List ℕ) (f : ℕ)
    → has b xs ≡ true
    → covers o (erase b xs) f + inside b o f ≡ covers o xs f
unfolding covers erase
covers-erase o b [] f h = ground arith
covers-erase o b (x ∷ xs) f h = ground (arith, covers-erase o b xs f)

pub cover-set :
    (k o : ℕ) (ls : List (List ℕ)) (l : List ℕ) (f : ℕ)
    → o < length ls
    → cover k (set ls o l) f + covers (k + o) (get_or ls o []) f ≡ cover k ls f + covers (k + o) l f
unfolding cover
cover-set k o [] l f h = absurd (omega arith)
cover-set k zero (x ∷ ls) l f h = rw add-zero (omega arith)
cover-set k (suc o) (x ∷ ls) l f h =
    let e : k + suc o ≡ k + 1 + o = omega arith in
    rw e (omega (arith, cover-set (k + 1) o ls l f (omega arith)))

-- One order's blocks cover no frame more often than all do.
pub covers-le-cover :
    (k o : ℕ) (ls : List (List ℕ)) (f : ℕ) → covers (k + o) (get_or ls o []) f ≤ cover k ls f
unfolding cover covers
covers-le-cover k o [] f = ground arith
covers-le-cover k zero (x ∷ ls) f = rw add-zero (omega arith)
covers-le-cover k (suc o) (x ∷ ls) f =
    let e : k + suc o ≡ k + 1 + o = omega arith in
    rw e (omega (arith, covers-le-cover (k + 1) o ls f))

All-erase : (P : ℕ → Type 0) (b : ℕ) (xs : List ℕ) → All P xs → All P (erase b xs)
unfolding erase
All-erase P b [] h = h
All-erase P b (x ∷ xs) h = elim (Bool-cases (x == b)) [
  | inl e ↦ rw e h.1
  | inr e ↦ rw e (h.0, All-erase P b xs h.1)
]

pub All-has : (P : ℕ → Type 0) (b : ℕ) (xs : List ℕ) → All P xs → has b xs ≡ true → P b
All-has P b [] h e = cc
All-has P b (x ∷ xs) h e = elim (Bool-cases (x == b)) [
  | inl same ↦ let e' : x ≡ b = ground arith in rw e' at h.0
  | inr other ↦ All-has P b xs h.1 (ground arith)
]

module _ {frames m : ℕ} {ls : List (List ℕ)} (v : IsApart frames m ls) (o b : ℕ) (le : o ≤ m) where
  cover-set_lem :
      (l : List ℕ) (f : ℕ)
      → cover 0 (set ls o l) f + covers o (get_or ls o []) f ≡ cover 0 ls f + covers o l f
  cover-set_lem l f = rw zero-add at (cover-set 0 o ls l f (omega (arith, v.orders)))

  blocks-set :
      (l : List ℕ)
      → All (Block frames o) l
      → (o' : ℕ) → All (Block frames o') (get_or (set ls o l) o' [])
  blocks-set l h o' = elim (ℕ_discrete o o') [
    | yes e ↦ rw (← e, get_or-set_self ls o l [] (omega (arith, v.orders))) h
    | no n ↦ rw (get_or-set_ne ls o o' l [] n) (v.blocks o')
  ]

  pub cover-put : (f : ℕ) → cover 0 (put ls o b) f ≡ cover 0 ls f + inside b o f
  cover-put f =
      let l = get_or ls o [] in
      omega (arith, cover-set_lem (l ++ (b ∷ [])) f, covers-append o l b f)

  pub cover-unlink :
      (f : ℕ)
      → has b (get_or ls o []) ≡ true
      → cover 0 (unlink ls o b) f + inside b o f ≡ cover 0 ls f
  cover-unlink f h =
      let l = get_or ls o [] in omega (arith, cover-set_lem (erase b l) f, covers-erase o b l f h)

  pub put-IsApart :
      Block frames o b → ((f : ℕ) → cover 0 ls f + inside b o f ≤ 1) → IsApart frames m (put ls o b)
  put-IsApart k once = record {
    orders = omega (arith, v.orders, length-set ls o (get_or ls o [] ++ (b ∷ [])));
    blocks =
        blocks-set _ (All-append (Block frames o) (get_or ls o []) (b ∷ []) (v.blocks o) (k, tt));
    once = λ f. rw cover-put (once f);
  }

  pub unlink-IsApart : has b (get_or ls o []) ≡ true → IsApart frames m (unlink ls o b)
  unlink-IsApart h = record {
    orders = omega (arith, v.orders, length-set ls o (erase b (get_or ls o [])));
    blocks = blocks-set _ (All-erase (Block frames o) b (get_or ls o []) (v.blocks o));
    once = λ f. omega (arith, cover-unlink f h, v.once f);
  }
