-- ===== src/Vfs/Inodes/Gets.antt =====
-- kernel/src/fs/vfs.c: iget finds the inode of a number, or makes it, and counts the reference.
use beeos.Prelude.{
  ℕ, ◌<◌, ◌≡◌, refl, ap, ◌∙◌, ◌≢◌, ◌⊎◌, inl, inr, true, false, Bool-cases, Option, some, List, All,
  All-both, arith, ◌==◌,
}
use beeos.Prelude.Int.{pos, pos_part, ◌+ℤ◌}
use beeos.Htable.{hash_64}
use beeos.Vfs.Inodes.{
  Inodes, Inode, Attributes, inode_key, is_inode, inode_init, idup, iget, htable_bits,
}
use beeos.Vfs.Inodes.Caches.{dev_of, ino_of, IsKeyed, IsCache, IsSame, refs_of, Single-frame}

module _ (inode_alloc : ℕ → Inodes → Option ℕ) (inode_read : ℕ → ℕ → Attributes → Attributes) where
  -- The inode `x`, which `iget` has returned with the state `r`.
  pub record Got (fuel sb ino : ℕ) (s : Inodes) (B : ℕ → List ℕ) : Type 0 where
    pub x : ℕ
    pub result : Inodes
    pub gets : iget inode_alloc inode_read fuel sb ino s ≡ some (some x, result)
    pub nodes : ℕ → List ℕ
    pub cache : IsCache result nodes
    pub dev : dev_of result x ≡ s.dev sb
    pub number : ino_of result x ≡ ino
    pub others : (q : ℕ) → q ≢ x → result.inode q ≡ s.inode q
    pub counted :
        (is_inode s (s.dev sb) ino x ≡ true × ((result.inode x).ref ≡ (s.inode x).ref +ℤ pos 1))
        ⊎ (All
              (λ y. is_inode s (s.dev sb) ino y ≡ false)
              (B (hash_64 (inode_key (s.dev sb) ino) htable_bits))
            × ((result.inode x).ref ≡ pos 1))

-- What an inode is keyed by.
IsKeyed-frame :
    (s s' : Inodes) (i y : ℕ)
    → dev_of s' y ≡ dev_of s y
    → ino_of s' y ≡ ino_of s y
    → IsKeyed s i y
    → IsKeyed s' i y
IsKeyed-frame s s' i y d n k = record {
  slot_of =
      ap (λ (v : ℕ). hash_64 (inode_key v (ino_of s' y)) htable_bits) d
      ∙ ap (λ (v : ℕ). hash_64 (inode_key (dev_of s y) v) htable_bits) n
      ∙ k.slot_of;
}

idup-inode :
    (s : Inodes) (x y : ℕ)
    → y ≡ x
    → (idup x s).inode y ≡ record (s.inode y) { ref = (s.inode y).ref +ℤ pos 1 }
idup-inode s x y e = rw e (let same : (x == x) ≡ true = ground arith in rw same refl)

idup-other : (s : Inodes) (x y : ℕ) → y ≢ x → (idup x s).inode y ≡ s.inode y
idup-other s x y ne = let differ : (y == x) ≡ false = ground (arith, ne) in rw differ refl

-- A reference more does not change what the inode is.
idup-same :
    (s : Inodes) (x y : ℕ) → (dev_of (idup x s) y ≡ dev_of s y) × (ino_of (idup x s) y ≡ ino_of s y)
idup-same s x y = elim (Bool-cases (y == x)) [
  | inl same ↦
      let at = idup-inode s x y (ground (arith, same)) in
      (ap (λ (v : Inode). s.dev v.sb) at, ap (λ (v : Inode). v.ino) at)
  | inr differ ↦
      let at = idup-other s x y (ground (arith, differ)) in
      (ap (λ (v : Inode). s.dev v.sb) at, ap (λ (v : Inode). v.ino) at)
]

-- A reference more to a node that has one.
idup-refs : (s : Inodes) (x y : ℕ) → 0 < refs_of s x → 0 < refs_of (idup x s) y → 0 < refs_of s y
idup-refs s x y live l = elim (Bool-cases (y == x)) [
  | inl same ↦ let e : y ≡ x = ground (arith, same) in rw e live
  | inr differ ↦
      let at = ap (λ (v : Inode). pos_part v.ref) (idup-other s x y (ground (arith, differ))) in
      rw at at l
]

idup-IsKeyed : (s : Inodes) (x i y : ℕ) → IsKeyed s i y → IsKeyed (idup x s) i y
idup-IsKeyed s x i y k = let (d, n) = idup-same s x y in IsKeyed-frame s (idup x s) i y d n k

pub idup-IsCache :
    (s : Inodes) (B : ℕ → List ℕ) (x : ℕ) → 0 < refs_of s x → IsCache s B → IsCache (idup x s) B
idup-IsCache s B x live c = record {
  table = record {
    chain = c.table.chain;
    distinct = c.table.distinct;
    nodes = c.table.nodes;
    outside = c.table.outside;
    apart = c.table.apart;
  };
  keyed = λ i l. All-both (λ y k _. idup-IsKeyed s x i y k) (B i) (c.keyed i l) (c.keyed i l);
  single = λ i l.
      Single-frame (refs_of s) (dev_of s) (ino_of s) (refs_of (idup x s)) (dev_of (idup x s))
        (ino_of (idup x s)) (B i) (All-both (λ y _ _. same y) (B i) (c.keyed i l) (c.keyed i l))
        (c.single i l);
}
  where
    same :
        (y : ℕ)
        → IsSame
            (refs_of s)
            (dev_of s)
            (ino_of s)
            (refs_of (idup x s))
            (dev_of (idup x s))
            (ino_of (idup x s))
            y
    same y =
        let (d, n) = idup-same s x y in
        record { refs = λ l. idup-refs s x y live l; dev = d; ino = n }

module _ (inode_alloc : ℕ → Inodes → Option ℕ) (inode_read : ℕ → ℕ → Attributes → Attributes) where
  -- A new inode, put into the table with the reference of the caller.
  new_inode : ℕ → ℕ → ℕ → Inodes → Inodes
  unfolding inode_init
  new_inode node sb ino s = idup node (inode_init inode_alloc inode_read node sb ino 0 s)
