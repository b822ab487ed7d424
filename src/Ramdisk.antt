-- ===== src/Ramdisk.antt =====
-- kernel/src/driver/ramdisk.c: the disk in memory, read in blocks of 512 bytes. What a function
-- copies to its buffer is the list of the bytes, from the buffer's start on.
pub mod Reads
use beeos.Prelude.{
  ℕ, zero, suc, ◌+◌, ◌-◌, ◌*◌, ◌/◌, ◌%◌, ◌^◌, Bool, true, false, List, [], ◌∷◌, ◌++◌, ltb, ◌==◌,
  if◌then◌else◌,
}
use beeos.Prelude.Int.{ℤ, pos, negsuc}

-- `bytes` is the memory from `addr` on.
pub record Ramdisk : Type 0 where
  pub bytes : ℕ → ℕ
  pub size : ℕ

abbrev pub block_size : ℕ
block_size = 512

-- The `n` bytes at `p`.
unfoldable pub read_bytes : (ℕ → ℕ) → ℕ → ℕ → List ℕ
read_bytes f p zero = []
read_bytes f p (suc n) = f p ∷ read_bytes f (p + 1) n

-- The result, and what `blk` holds then; a short block leaves its tail as it was, which is not read.
pub ramdisk_read_block : ℕ → Ramdisk → ℤ × (ℕ → ℕ)
ramdisk_read_block blocknum d =
    let off = blocknum * block_size % 2 ^ 32 in
    let blk = λ (k : ℕ). d.bytes (off + k) in
    if ltb d.size off
    then (negsuc 0, blk)
    else if ltb d.size ((off + block_size) % 2 ^ 32)
    then (pos (d.size - off), blk)
    else (pos block_size, blk)

abbrev pub is_block : ℤ → Bool
is_block (pos n) = n == block_size
is_block (negsuc n) = false

abbrev pub lesser : ℕ → ℕ → ℕ
lesser a b = if ltb a b then a else b

-- The loop: what is left, and the bytes that it has copied. Each round takes one at least.
pub read_blocks : ℕ → ℕ → ℕ → Ramdisk → ℕ × List ℕ
read_blocks zero left nblk d = (left, [])
read_blocks (suc fuel) left nblk d =
    let (n, blk) = ramdisk_read_block nblk d in
    let m = lesser block_size left in
    let rest = read_blocks fuel (left - m) (nblk + 1) d in
    if left == 0
    then (0, [])
    else if is_block n
    then (rest.0, read_bytes blk 0 m ++ rest.1)
    else (left, [])

unfoldable pub ramdisk_read : ℕ → ℕ → Ramdisk → ℤ × List ℕ
unfolding read_blocks
ramdisk_read size off d =
    let nblk = off / block_size in
    let ioff = off % block_size in
    let (n, blk) = ramdisk_read_block nblk d in
    let m = lesser (block_size - ioff) size in
    let rest = read_blocks (size - m) (size - m) (nblk + 1) d in
    if is_block n then (pos (size - rest.0), read_bytes blk ioff m ++ rest.1) else (n, [])

-- Writing is not implemented.
pub ramdisk_write : Ramdisk → ℤ × Ramdisk
ramdisk_write d = (negsuc 0, d)

-- `addr` is the memory from there on.
pub ramdisk_init : (ℕ → ℕ) → ℕ → Ramdisk
ramdisk_init addr size = record { bytes = addr; size = size }
