-- ===== src/Devfs.antt =====
-- kernel/src/fs/devfs/devfs.c: the device file system. Its inodes are nodes of a list, here the list of
-- their addresses; the table of the inodes in memory is that of `Vfs/Inodes`.
pub mod Nodes
pub mod Volumes
mod Tests
use beeos.Prelude.{
  ℕ, zero, suc, ◌+◌, ◌/◌, ◌%◌, ◌^◌, Bool, true, false, Option, none, some, List, [], ◌∷◌, ◌++◌,
  ◌==◌, ◌||◌, if◌then◌else◌,
}
use beeos.Prelude.Int.{ℤ, pos, negsuc}
use beeos.Vfs.{same_name}
use beeos.Vfs.Inodes.{Inode, Inodes, Attributes, inode_create, inode_delete, put_inode}
use beeos.Ramdisk.{Ramdisk, read_bytes, ramdisk_read, ramdisk_write}

-- What stands behind a number of a device.
pub data Driver : Type 0 where
  terminal zeros nothing initrd memory random absent : Driver

-- The switch of `devfs_inode_read` and `devfs_inode_write`.
unfoldable pub driver_of : ℕ → Driver
driver_of dev =
    if (dev == 0x0500) || (dev == 0x0400) || (dev == 0x0401) || (dev == 0x0402)
    then terminal
    else if (dev == 0x0403) || (dev == 0x0404) || (dev == 0x0501)
    then terminal
    else if dev == 0x0105
    then zeros
    else if dev == 0x0103
    then nothing
    else if dev == 0x01fa
    then initrd
    else if (dev == 0x0101) || (dev == 0x0102)
    then memory
    else if (dev == 0x0108) || (dev == 0x0109)
    then random
    else absent

-- The result and the bytes that are copied; or the call of `tty_read`, `tty_write` or `random_read`
-- that the result comes from.
pub data Reply : Type 0 where
  result : ℤ → List ℕ → Reply
  asks_terminal : ℕ → ℕ → Reply
  asks_random : ℕ → Reply

-- -ENODEV.
abbrev pub no_device : ℤ
no_device = negsuc 18

abbrev pub serve_read : Driver → ℕ → ℕ → ℕ → Ramdisk → Reply
serve_read terminal dev count off d = asks_terminal dev count
serve_read zeros dev count off d = result (pos count) (read_bytes (λ q. 0) 0 count)
serve_read nothing dev count off d = result (pos count) []
serve_read initrd dev count off d = let (n, bytes) = ramdisk_read count off d in result n bytes
serve_read memory dev count off d = result (negsuc 0) []
serve_read random dev count off d = asks_random count
serve_read absent dev count off d = result no_device []

abbrev pub serve_write : Driver → ℕ → ℕ → Ramdisk → Reply
serve_write terminal dev count d = asks_terminal dev count
serve_write zeros dev count d = result (pos count) []
serve_write nothing dev count d = result (pos count) []
serve_write initrd dev count d = result (ramdisk_write d).0 []
serve_write memory dev count d = result (negsuc 0) []
serve_write random dev count d = result (negsuc 0) []
serve_write absent dev count d = result no_device []

unfoldable pub devfs_inode_read : ℕ → ℕ → ℕ → Ramdisk → Reply
unfolding driver_of
devfs_inode_read rdev count off d = serve_read (driver_of rdev) rdev count off d

pub devfs_inode_write : ℕ → ℕ → Ramdisk → Reply
unfolding driver_of
devfs_inode_write rdev count d = serve_write (driver_of rdev) rdev count d

-- `nodes` is the list `devfs_nodes`; `ino` is `devfs_ino`.
pub record Devfs : Type 0 where
  pub nodes : List ℕ
  pub ino : ℕ
  pub inodes : Inodes

abbrev pub rdev_of : Inodes → ℕ → ℕ
rdev_of s x = (s.inode x).attributes.rdev

abbrev pub names : List (List ℕ × ℕ)
names =
    (b'z' ∷ b'e' ∷ b'r' ∷ b'o' ∷ [], 0x0105)
    ∷ (b't' ∷ b't' ∷ b'y' ∷ b'0' ∷ [], 0x0400)
    ∷ (b't' ∷ b't' ∷ b'y' ∷ b'1' ∷ [], 0x0401)
    ∷ (b't' ∷ b't' ∷ b'y' ∷ b'2' ∷ [], 0x0402)
    ∷ (b't' ∷ b't' ∷ b'y' ∷ b'3' ∷ [], 0x0403)
    ∷ (b't' ∷ b't' ∷ b'y' ∷ b'4' ∷ [], 0x0404)
    ∷ (b't' ∷ b't' ∷ b'y' ∷ [], 0x0500)
    ∷ (b'c' ∷ b'o' ∷ b'n' ∷ b's' ∷ b'o' ∷ b'l' ∷ b'e' ∷ [], 0x0501)
    ∷ (b'i' ∷ b'n' ∷ b'i' ∷ b't' ∷ b'r' ∷ b'd' ∷ [], 0x01fa)
    ∷ (b'm' ∷ b'e' ∷ b'm' ∷ [], 0x0101)
    ∷ (b'k' ∷ b'm' ∷ b'e' ∷ b'm' ∷ [], 0x0102)
    ∷ (b'r' ∷ b'a' ∷ b'n' ∷ b'd' ∷ b'o' ∷ b'm' ∷ [], 0x0108)
    ∷ (b'u' ∷ b'r' ∷ b'a' ∷ b'n' ∷ b'd' ∷ b'o' ∷ b'm' ∷ [], 0x0109)
    ∷ []

unfoldable pub named_in : List (List ℕ × ℕ) → List ℕ → ℕ
named_in [] name = 0xffff
named_in ((n, dev) ∷ rest) name =
    let later = named_in rest name in if same_name n name then dev else later

unfoldable pub name_to_dev : List ℕ → ℕ
unfolding named_in
name_to_dev name = named_in names name

-- The loop of `devfs_lookup`.
unfoldable pub node_with : Inodes → ℕ → List ℕ → Option ℕ
node_with s dev [] = none
node_with s dev (x ∷ xs) =
    let rest = node_with s dev xs in if rdev_of s x == dev then some x else rest

unfoldable pub devfs_lookup : List ℕ → Devfs → Option ℕ
unfolding name_to_dev node_with
devfs_lookup name s = node_with s.inodes (name_to_dev name) s.nodes

-- The loop of `dev_to_inode`: `inod` stays the last node when none has the device.
unfoldable pub node_or_last : Inodes → ℕ → Option ℕ → List ℕ → Option ℕ
node_or_last s dev inod [] = inod
node_or_last s dev inod (x ∷ xs) =
    let rest = node_or_last s dev (some x) xs in if rdev_of s x == dev then some x else rest

unfoldable pub dev_to_inode : ℕ → Devfs → Option ℕ
unfolding node_or_last
dev_to_inode dev s = node_or_last s.inodes dev none s.nodes

unfoldable pub devfs_read : ℕ → ℕ → ℕ → Ramdisk → Devfs → Reply
unfolding dev_to_inode devfs_inode_read
devfs_read dev size off d s = elim (dev_to_inode dev s) [
  | none ↦ result (negsuc 0) []
  | some x ↦ devfs_inode_read (rdev_of s.inodes x) size off d
]

pub devfs_write : ℕ → ℕ → Ramdisk → Devfs → Reply
unfolding dev_to_inode devfs_inode_write
devfs_write dev size d s = elim (dev_to_inode dev s) [
  | none ↦ result (negsuc 0) []
  | some x ↦ devfs_inode_write (rdev_of s.inodes x) size d
]

-- `S_ISBLK(mode) || S_ISCHR(mode)`
pub is_device : ℕ → Bool
is_device mode = let kind = mode / 2 ^ 12 % 16 in (kind == 6) || (kind == 2)

abbrev pub set_rdev : ℕ → Inode → Inode
set_rdev dev v = record v { attributes = record v.attributes { rdev = dev } }

-- `kmalloc` is what the allocation of an inode returns. The new node is the last one of the list.
pub devfs_sb_inode_alloc : Option ℕ → Devfs → Devfs
devfs_sb_inode_alloc none s = s
devfs_sb_inode_alloc (some x) s = record s { nodes = s.nodes ++ (x ∷ []) }

-- The file system has no `inode_read`.
pub devfs_mknod : Option ℕ → ℕ → ℕ → ℕ → Devfs → ℤ × Devfs
unfolding is_device devfs_sb_inode_alloc
devfs_mknod kmalloc sb mode dev s =
    let ino = s.ino + 1 in
    let (r, inodes) = inode_create (λ sb i. kmalloc) (λ sb i a. a) sb ino mode s.inodes in
    let s1 : Devfs = devfs_sb_inode_alloc kmalloc (record s { ino = ino; inodes = inodes }) in
    elim r [
      | none ↦ (negsuc 0, s1)
      | some x ↦
          let with_dev : Devfs = record s1 {
            inodes = put_inode x (set_rdev dev (inodes.inode x)) inodes;
          } in
          (pos 0, if is_device mode then with_dev else s1)
    ]

nodes_but : ℕ → List ℕ → List ℕ
nodes_but x [] = []
nodes_but x (y ∷ ys) = let rest = nodes_but x ys in if y == x then ys else y ∷ rest

-- The node is taken off the list.
pub devfs_sb_inode_free : ℕ → Devfs → Devfs
unfolding nodes_but
devfs_sb_inode_free x s = record s { nodes = nodes_but x s.nodes }
