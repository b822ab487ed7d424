-- ===== src/Vfs/Inodes.antt =====
-- kernel/src/fs/vfs.c and vfs.h: the inodes in memory, in a hash table. An inode is its address. Where
-- a super block allocates one, and what its file system reads into it, are parameters.

pub mod Caches
pub mod Gets
mod Tests
use beeos.Prelude.{
  ℕ, zero, suc, ◌+◌, ◌-◌, ◌*◌, ◌^◌, Bool, true, false, ◌&&◌, not, Option, none, some, ltb, ◌==◌,
  if◌then◌else◌,
}
use beeos.Prelude.Int.{ℤ, pos, negsuc, pos_part, ◌+ℤ◌}
use beeos.Htable.{
  Htable, set_next, set_pprev, htable_insert, htable_delete, htable_lookup, htable_init,
}

-- The fields of `struct inode` that a file system fills in; the times are left out.
pub record Attributes : Type 0 where
  pub mode : ℕ
  pub rdev : ℕ
  pub uid : ℕ
  pub gid : ℕ
  pub size : ℕ

pub record Inode : Type 0 where
  pub sb : ℕ
  pub ino : ℕ
  pub ref : ℤ
  pub attributes : Attributes

-- `links` is the memory of the `hlink` fields and of the table; `dev` is that of a super block.
pub record Inodes : Type 0 where
  pub links : Htable
  pub inode_htable : ℕ
  pub inode : ℕ → Inode
  pub dev : ℕ → ℕ

abbrev pub htable_bits : ℕ
htable_bits = 3

-- `dev << 16` is an `int`, and the sum a `long long`.
pub inode_key : ℕ → ℕ → ℕ
inode_key dev ino =
    let k = dev * 2 ^ 16 + ino in if ltb k (2 ^ 31) then k else k + (2 ^ 64 - 2 ^ 32)

abbrev pub put_inode : ℕ → Inode → Inodes → Inodes
put_inode x v s = record s { inode = λ q. if q == x then v else s.inode q }

-- `ip->ref > 0 && ip->sb->dev == dev && ip->ino == ino`
pub is_inode : Inodes → ℕ → ℕ → ℕ → Bool
is_inode s dev ino x =
    ltb 0 (pos_part (s.inode x).ref) && (s.dev (s.inode x).sb == dev) && ((s.inode x).ino == ino)

-- The loop of `inode_lookup`; the outer `none` is a lack of rounds.
unfoldable pub lookup_from : ℕ → Inodes → ℕ → ℕ → ℕ → Option (Option ℕ)
unfolding is_inode
lookup_from zero s dev ino lnk = none
lookup_from (suc n) s dev ino lnk =
    let rest = lookup_from n s dev ino (s.links.next lnk) in
    if lnk == 0 then some none else if is_inode s dev ino lnk then some (some lnk) else rest

unfoldable pub inode_lookup : ℕ → ℕ → ℕ → Inodes → Option (Option ℕ)
unfolding lookup_from htable_lookup inode_key
inode_lookup fuel dev ino s =
    lookup_from fuel s dev ino
      (htable_lookup s.inode_htable (inode_key dev ino) htable_bits s.links)

abbrev pub idup : ℕ → Inodes → Inodes
idup x s = put_inode x (record (s.inode x) { ref = (s.inode x).ref +ℤ pos 1 }) s

module _ (inode_alloc : ℕ → Inodes → Option ℕ) (inode_read : ℕ → ℕ → Attributes → Attributes) where
  -- The structure is zeroed first.
  unfoldable pub inode_init : ℕ → ℕ → ℕ → ℕ → Inodes → Inodes
  unfolding htable_insert inode_key
  inode_init inod sb ino mode s =
      let empty : Attributes = record { mode = mode; rdev = 0; uid = 0; gid = 0; size = 0 } in
      let new : Inode = record {
        sb = sb;
        ino = ino;
        ref = pos 0;
        attributes = inode_read sb ino empty;
      } in
      let s1 = put_inode inod new s in
      record s1 {
        links =
            htable_insert s.inode_htable inod (inode_key (s.dev sb) ino) htable_bits
              (set_pprev inod 0 (set_next inod 0 s.links));
      }

  unfoldable pub inode_create : ℕ → ℕ → ℕ → Inodes → Option ℕ × Inodes
  unfolding inode_init
  inode_create sb ino mode s = elim (inode_alloc sb s) [
    | none ↦ (none, s)
    | some inod ↦ (some inod, inode_init inod sb ino mode s)
  ]

  pub iget : ℕ → ℕ → ℕ → Inodes → Option (Option ℕ × Inodes)
  unfolding inode_lookup
  iget fuel sb ino s = elim (inode_lookup fuel (s.dev sb) ino s) [
    | none ↦ none
    | some (some x) ↦ some (some x, idup x s)
    | some none ↦
        let (r, s') = inode_create sb ino 0 s in
        elim r [ none ↦ some (none, s') | some x ↦ some (some x, idup x s') ]
  ]

-- The memory of the inode goes back to the file system or to a cache.
pub inode_delete : ℕ → Inodes → Inodes
unfolding htable_delete
inode_delete x s = if s.links.pprev x == 0 then s else record s { links = htable_delete x s.links }

abbrev pub drop_ref : ℕ → Inodes → Inodes
drop_ref x s = put_inode x (record (s.inode x) { ref = (s.inode x).ref +ℤ negsuc 0 }) s

abbrev pub is_zero : ℤ → Bool
is_zero (pos n) = n == 0
is_zero (negsuc n) = false

pub iput : ℕ → Inodes → Inodes
unfolding inode_delete
iput x s = let s' = drop_ref x s in if is_zero (s'.inode x).ref then inode_delete x s' else s'
