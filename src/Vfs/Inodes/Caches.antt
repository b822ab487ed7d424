-- ===== src/Vfs/Inodes/Caches.antt =====
-- kernel/src/fs/vfs.c: the table of inodes holds at most one for every number of a device.
use beeos.Prelude.{
  ℕ, zero, suc, ◌+◌, ◌<◌, ◌≡◌, refl, sym, ap, ◌∙◌, ◌≢◌, ◌⊎◌, inl, inr, true, false, Bool-cases,
  Option, none, some, List, [], ◌∷◌, ◌++◌, length, All, All-both, arith, ◌==◌,
}
use beeos.Prelude.Int.{pos_part}
use beeos.Htable.{htable_lookup, slot, hash_64}
use beeos.Htable.Hashes.{hash_64-lt}
use beeos.Htable.Chains.{Bucket}
use beeos.Htable.Buckets.{IsTable}
use beeos.Vfs.Inodes.{Inodes, inode_key, is_inode, lookup_from, inode_lookup, htable_bits}

abbrev pub dev_of : Inodes → ℕ → ℕ
dev_of s x = s.dev (s.inode x).sb

abbrev pub ino_of : Inodes → ℕ → ℕ
ino_of s x = (s.inode x).ino

abbrev pub refs_of : Inodes → ℕ → ℕ
refs_of s x = pos_part (s.inode x).ref

-- An inode in the slot of its key.
pub record IsKeyed (s : Inodes) (i x : ℕ) : Type 0 where
  pub slot_of : hash_64 (inode_key (dev_of s x) (ino_of s x)) htable_bits ≡ i

-- Of the nodes with a reference no two have the same number on the same device.
unfoldable pub Single : (ℕ → ℕ) → (ℕ → ℕ) → (ℕ → ℕ) → List ℕ → Type 0
Single r d i [] = Unit
Single r d i (x ∷ xs) = All (λ y. 0 < r x → 0 < r y → d y ≡ d x → i y ≢ i x) xs × Single r d i xs

-- The table may hold inodes without a reference, as `devfs_mknod` and `ext2_lookup` leave them.
pub record IsCache (s : Inodes) (B : ℕ → List ℕ) : Type 0 where
  pub table : IsTable s.links s.inode_htable 8 B
  pub keyed : (i : ℕ) → i < 8 → All (λ x. IsKeyed s i x) (B i)
  pub single : (i : ℕ) → i < 8 → Single (refs_of s) (dev_of s) (ino_of s) (B i)

-- No node gets its first reference, and the numbers stay.
pub record IsSame (r d i r' d' i' : ℕ → ℕ) (x : ℕ) : Type 0 where
  pub refs : 0 < r' x → 0 < r x
  pub dev : d' x ≡ d x
  pub ino : i' x ≡ i x

pub Single-frame :
    (r d i r' d' i' : ℕ → ℕ) (xs : List ℕ)
    → All (λ x. IsSame r d i r' d' i' x) xs
    → Single r d i xs
    → Single r' d' i' xs
unfolding Single
Single-frame r d i r' d' i' [] all s = tt
Single-frame r d i r' d' i' (x ∷ xs) (x_same, all) (sx, s) = (
  All-both (λ y y_same differ. step y y_same differ) xs all sx,
  Single-frame r d i r' d' i' xs all s,
)
  where
    step :
        (y : ℕ)
        → IsSame r d i r' d' i' y
        → (0 < r x → 0 < r y → d y ≡ d x → i y ≢ i x)
        → 0 < r' x
        → 0 < r' y
        → d' y ≡ d' x
        → i' y ≢ i' x
    step y y_same differ lx ly dd ii =
        differ (x_same.refs lx) (y_same.refs ly) (sym y_same.dev ∙ dd ∙ x_same.dev)
          (sym y_same.ino ∙ ii ∙ x_same.ino)

-- Where `lookup_from` stops.
pub record Hit (s : Inodes) (dev ino : ℕ) (xs : List ℕ) (x : ℕ) : Type 0 where
  pub front : List ℕ
  pub behind : List ℕ
  pub parts : xs ≡ front ++ (x ∷ behind)
  pub hits : is_inode s dev ino x ≡ true

abbrev pub Looked : Inodes → ℕ → ℕ → List ℕ → Option (Option ℕ) → Type 0
Looked s dev ino xs r =
    ((x : ℕ) × Hit s dev ino xs x × (r ≡ some (some x)))
    ⊎ (All (λ x. is_inode s dev ino x ≡ false) xs × (r ≡ some none))

Looked-skip :
    (s : Inodes) (dev ino : ℕ) (x : ℕ) (xs : List ℕ) (r : Option (Option ℕ))
    → is_inode s dev ino x ≡ false
    → Looked s dev ino xs r
    → Looked s dev ino (x ∷ xs) r
Looked-skip s dev ino x xs r miss (inl (y, h, e)) = inl (
  y,
  record { front = x ∷ h.front; behind = h.behind; parts = ap (λ l. x ∷ l) h.parts; hits = h.hits },
  e,
)
Looked-skip s dev ino x xs r miss (inr (all, e)) = inr ((miss, all), e)

pub lookup_from-Looked :
    (fuel : ℕ) (s : Inodes) (dev ino c : ℕ) (xs : List ℕ)
    → Bucket s.links c xs
    → length xs < fuel
    → Looked s dev ino xs (lookup_from fuel s dev ino (s.links.next c))
unfolding lookup_from Bucket
lookup_from-Looked zero s dev ino c xs b l = absurd (omega (arith, l))
lookup_from-Looked (suc n) s dev ino c [] b l = inr (tt, ground (arith, b))
lookup_from-Looked (suc n) s dev ino c (x ∷ xs) (f, p, nz, b) l =
    let rest = lookup_from-Looked n s dev ino x xs b (omega (arith, l)) in
    let valid : (x == 0) ≡ false = ground (arith, nz) in
    elim (Bool-cases (is_inode s dev ino x)) [
      | inl hit ↦
          inl (
            x,
            record { front = []; behind = xs; parts = refl; hits = hit },
            rw (f, valid, hit) refl,
          )
      | inr miss ↦ Looked-skip s dev ino x xs _ miss (rw (f, valid, miss) rest)
    ]

pub inode_lookup-Looked :
    (fuel : ℕ) (s : Inodes) (dev ino : ℕ) (B : ℕ → List ℕ)
    → IsCache s B
    → let i = hash_64 (inode_key dev ino) htable_bits in
      length (B i) < fuel → Looked s dev ino (B i) (inode_lookup fuel dev ino s)
unfolding inode_lookup htable_lookup slot
inode_lookup-Looked fuel s dev ino B c l =
    let i = hash_64 (inode_key dev ino) htable_bits in
    lookup_from-Looked fuel s dev ino (s.inode_htable + i) (B i)
      (c.table.chain i (hash_64-lt (inode_key dev ino)).0) l
