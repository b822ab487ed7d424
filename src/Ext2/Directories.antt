-- ===== src/Ext2/Directories.antt =====
-- kernel/src/fs/ext2/ext2.c: lookups and listings in the block of a directory, once it has been read.
-- The buffer is the list of its bytes.
pub mod Entries
mod Tests
use beeos.Prelude.{
  ℕ, zero, suc, ◌+◌, ◌-◌, ◌*◌, ◌%◌, ◌^◌, Bool, true, false, not, Option, none, some, List, [], ◌∷◌,
  take, get_or, ltb, ◌==◌, if◌then◌else◌,
}
use beeos.Prelude.Int.{ℤ, pos, negsuc}
use beeos.Vfs.{name_max, same_name}
use beeos.Ext2.{Super, Inode, is_read}

-- The fields of `struct ext2_disk_dirent` that are read; `name` has `name_len` characters.
pub record Entry : Type 0 where
  pub ino : ℕ
  pub rec_len : ℕ
  pub name : List ℕ

abbrev pub disk_dirent_size : ℕ
disk_dirent_size = 264

unfoldable pub chars_at : List ℕ → ℕ → ℕ → List ℕ
chars_at buf p zero = []
chars_at buf p (suc n) = get_or buf p 0 ∷ chars_at buf (p + 1) n

unfoldable pub entry_at : List ℕ → ℕ → Entry
unfolding chars_at
entry_at buf p =
    let byte = λ (k : ℕ). get_or buf (p + k) 0 in
    record {
      ino = byte 0 + 2 ^ 8 * byte 1 + 2 ^ 16 * byte 2 + 2 ^ 24 * byte 3;
      rec_len = byte 4 + 2 ^ 8 * byte 5;
      name = chars_at buf (p + 8) (byte 6);
    }

-- How a walk ends: at an entry, without one, or behind the buffer, for which no code is given.
pub data Walk : Type 0 where
  at_entry : Entry → Walk
  at_end overruns : Walk

-- The loop of `ext2_lookup`; the outer `none` is a lack of rounds.
unfoldable pub search : ℕ → List ℕ → List ℕ → ℕ → ℕ → Option Walk
unfolding entry_at
search zero name buf p count = none
search (suc n) name buf p count =
    let e = entry_at buf p in
    let rest = search n name buf (p + e.rec_len) (count - e.rec_len) in
    if ltb count disk_dirent_size
    then some at_end
    else if same_name name e.name
    then some (at_entry e)
    else if e.rec_len == 0
    then some at_end
    else if ltb count e.rec_len
    then some overruns
    else rest

-- The loop of `ext2_readdir`, with the entries that are left out before the one that is asked for.
unfoldable pub pick : ℕ → ℕ → List ℕ → ℕ → ℕ → Option Walk
unfolding entry_at
pick zero i buf p count = none
pick (suc n) i buf p count =
    let e = entry_at buf p in
    let rest = pick n (i - 1) buf (p + e.rec_len) (count - e.rec_len) in
    if ltb count disk_dirent_size
    then some at_end
    else if i == 0
    then some (at_entry e)
    else if e.rec_len == 0
    then some at_end
    else if ltb count e.rec_len
    then some overruns
    else rest

-- An `ino_t` has 16 bits.
abbrev pub ino16 : ℕ → ℕ
ino16 i = i % 2 ^ 16

-- The number of the inode that `ext2_lookup` asks `iget` for.
abbrev pub found : Option Walk → Option (Option ℕ)
found none = none
found (some (at_entry e)) = some (some (ino16 e.ino))
found (some at_end) = some none
found (some overruns) = none

-- What `ext2_readdir` returns, with the number and the name for `dent`: without an entry it is still
-- the size that has been read.
abbrev pub listed : ℕ → Option Walk → Option (ℤ × Option (ℕ × List ℕ))
listed size none = none
listed size (some (at_entry e)) = some (pos 0, some (ino16 e.ino, take name_max e.name))
listed size (some at_end) = some (pos size, none)
listed size (some overruns) = none

-- -EIO for a short read.
abbrev pub unread : ℤ → ℤ
unread (pos n) = negsuc 4
unread (negsuc n) = negsuc n

-- `kmalloc` says whether there is memory for the buffer.
module _ (devfs_read : ℕ → ℕ → ℕ → ℤ × List ℕ) (kmalloc : Bool) where
  pub ext2_lookup : List ℕ → Inode → Super → Option (Option ℕ)
  unfolding search
  ext2_lookup name dir sb =
      let (n, dirbuf) = devfs_read sb.dev dir.size (dir.blocks 0 * 1024 % 2 ^ 32) in
      let walk = found (search (dir.size + 1) name dirbuf 0 dir.size) in
      if not kmalloc then some none else if is_read n dir.size then walk else some none

  pub ext2_readdir : ℕ → Inode → Super → Option (ℤ × Option (ℕ × List ℕ))
  unfolding pick
  ext2_readdir i dir sb =
      let (n, dirbuf) = devfs_read sb.dev dir.size (dir.blocks 0 * 1024 % 2 ^ 32) in
      let walk = listed dir.size (pick (dir.size + 1) i dirbuf 0 dir.size) in
      if not kmalloc
      then some (negsuc 11, none)
      else if is_read n dir.size
      then walk
      else some (unread n, none)
