-- ===== src/Ext2.antt =====
-- kernel/src/fs/ext2/ext2.c: where the blocks of a file are, and reads of a file. A read of the
-- device, `devfs_read` of kernel/src/fs/devfs/devfs.c, is a parameter: its result, and the bytes that
-- it has copied from the start of the buffer on.
pub mod Files
pub mod Blank
pub mod Directories
mod Tests
use beeos.Prelude.{
  ℕ, zero, suc, ◌+◌, ◌-◌, ◌*◌, ◌/◌, ◌%◌, ◌^◌, Bool, true, false, Option, none, some, List, [], ◌∷◌,
  ◌++◌, length, get_or, ltb, leb, ◌==◌, ◌&&◌, not, if◌then◌else◌,
}
use beeos.Prelude.Int.{ℤ, pos, negsuc}

-- The fields that reads use; `inode_table` is that of the descriptor of a group.
pub record Super : Type 0 where
  pub dev : ℕ
  pub block_size : ℕ
  pub log_block_size : ℕ
  pub inodes_per_group : ℕ
  pub inode_table : ℕ → ℕ

pub record Inode : Type 0 where
  pub size : ℕ
  pub blocks : ℕ → ℕ

abbrev pub ndir_blocks : ℕ
ndir_blocks = 12

abbrev pub blk_ind : ℕ
blk_ind = 12

-- A block, -1, or a panic for the blocks that need further tables.
pub data Located : Type 0 where
  block : ℕ → Located
  failed panics : Located

-- A 32-bit number of a buffer, its low byte first.
unfoldable pub word_at : List ℕ → ℕ → ℕ
word_at buf i =
    get_or buf (4 * i) 0
    + 2 ^ 8 * get_or buf (4 * i + 1) 0
    + 2 ^ 16 * get_or buf (4 * i + 2) 0
    + 2 ^ 24 * get_or buf (4 * i + 3) 0

abbrev pub is_read : ℤ → ℕ → Bool
is_read (pos n) count = n == count
is_read (negsuc n) count = false

abbrev pub lesser : ℕ → ℕ → ℕ
lesser a b = if ltb a b then a else b

-- How the loop of `ext2_read` ends: with what is left of the count, and the bytes that it has copied.
pub data Read : Type 0 where
  copied : ℕ → List ℕ → Read
  stops : Read

abbrev pub put_front : List ℕ → Read → Read
put_front bs (copied left cs) = copied left (bs ++ cs)
put_front bs stops = stops

abbrev pub is_panic : Located → Bool
is_panic (block b) = false
is_panic failed = false
is_panic panics = true

-- The count that `ext2_read` returns, and the bytes.
abbrev pub read_result : ℕ → Read → Option (ℕ × List ℕ)
read_result count (copied left bytes) = some (count - left, bytes)
read_result count stops = none

module _ (devfs_read : ℕ → ℕ → ℕ → ℤ × List ℕ) where
  -- The block of the table of the file's further blocks; the allocation of its buffer is not tested.
  pub indirect_block : ℕ → Inode → Super → Located
  unfolding word_at
  indirect_block index inod sb =
      let dbl = index / 2 ^ 8 % 2 ^ 8 in
      let tpl = index / 2 ^ 16 % 2 ^ 8 in
      let (n, buf) =
        devfs_read sb.dev sb.block_size (inod.blocks blk_ind * sb.block_size % 2 ^ 32) in
      if not (tpl == 0)
      then panics
      else if not (dbl == 0)
      then panics
      else if is_read n sb.block_size
      then block (word_at buf (index % 2 ^ 8))
      else failed

  pub offset_to_block : ℕ → Inode → Super → Located
  unfolding indirect_block
  offset_to_block offset inod sb =
      let shift = 10 + sb.log_block_size in
      let index = offset / 2 ^ shift in
      if leb 32 shift
      then failed
      else if ltb offset (ndir_blocks * sb.block_size)
      then (if leb 15 (index % 2 ^ 8) then failed else block (inod.blocks (index % 2 ^ 8)))
      else indirect_block (index - ndir_blocks) inod sb

  -- The body of the loop once the block is known. A block of 2 ^ 31 or more is negative as an `int`.
  abbrev pub read_part : Located → ℕ → ℕ → Super → Option (ℕ × List ℕ)
  read_part (block b) left off sb =
      let block_off = off % sb.block_size in
      let n = lesser left (sb.block_size - block_off) in
      let (r, bytes) = devfs_read sb.dev n ((b * sb.block_size + block_off) % 2 ^ 32) in
      if leb (2 ^ 31) b then none else if is_read r n then some (n, bytes) else none
  read_part failed left off sb = none
  read_part panics left off sb = none

  -- Each round takes one byte at least.
  pub read_loop : ℕ → ℕ → ℕ → ℕ → Inode → Super → Read
  unfolding offset_to_block
  read_loop zero left file_off off inod sb = copied left []
  read_loop (suc fuel) left file_off off inod sb =
      let at = offset_to_block file_off inod sb in
      let more : Read = elim (read_part at left off sb) [
        | none ↦ copied left []
        | some (n, bytes) ↦ put_front bytes (read_loop fuel (left - n) (file_off + n) 0 inod sb)
      ] in
      if left == 0 then copied 0 [] else if is_panic at then stops else more

  -- `left` is an `int`, so that a count of 2 ^ 31 or more copies nothing.
  unfoldable pub ext2_read : ℕ → ℕ → Inode → Super → Option (ℕ × List ℕ)
  unfolding read_loop
  ext2_read count off inod sb =
      let n = if ltb inod.size ((off + count) % 2 ^ 32) then inod.size - off else count in
      let all = read_result n (read_loop n n off off inod sb) in
      if ltb inod.size off then some (0, []) else if leb (2 ^ 31) n then some (0, []) else all

-- Where `ext2_super_inode_read` finds an inode on the device.
unfoldable pub inode_offset : ℕ → Super → ℕ
inode_offset ino sb =
    let group = (ino - 1) / sb.inodes_per_group in
    let table_index = (ino - 1) % sb.inodes_per_group in
    let blockno = table_index * 128 / 1024 + sb.inode_table group in
    let ind = table_index % (1024 / 128) in blockno * 1024 + ind * 128
