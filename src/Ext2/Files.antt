-- ===== src/Ext2/Files.antt =====
-- kernel/src/fs/ext2/ext2.c: a read of a file on a volume of blocks of 1024 bytes gives its bytes.
use beeos.Prelude.{
  ℕ, zero, suc, ◌+◌, ◌-◌, ◌*◌, ◌/◌, ◌%◌, ◌^◌, ◌≤◌, ◌<◌, ◌≡◌, ◌⊎◌, refl, sym, ap, Bool-cases, inl,
  inr, some, List, ◌∷◌, ◌++◌, arith, true, false, leb, ltb, ◌==◌, if◌then◌else◌,
}
use beeos.Prelude.Int.{ℤ, pos}
use beeos.Ramdisk.{read_bytes}
use beeos.Ramdisk.Reads.{read_bytes-append, read_bytes-zero}
use beeos.Ext2.{
  Super, Inode, block, word_at, lesser, offset_to_block, copied, read_part, read_loop, ext2_read,
}

-- The block of the `k`-th kilobyte of a file: from the inode, or from the block of the inode's entry 12.
unfoldable pub block_of : (ℕ → ℕ) → Inode → ℕ → ℕ
block_of disk inod k =
    if ltb k 12
    then inod.blocks k
    else word_at (read_bytes disk (inod.blocks 12 * 1024) 1024) (k - 12)

-- The byte of a file at an offset.
unfoldable pub file_byte : (ℕ → ℕ) → Inode → ℕ → ℕ
unfolding block_of
file_byte disk inod p = disk (block_of disk inod (p / 1024) * 1024 + p % 1024)

-- A device whose first `limit` bytes are those of `disk`.
pub record IsDevice (devfs_read : ℕ → ℕ → ℕ → ℤ × List ℕ) (disk : ℕ → ℕ) (limit dev : ℕ)
    : Type 0 where
  pub small : limit < 2 ^ 32
  pub reads :
      (n off : ℕ) → 0 < n → off + n ≤ limit → devfs_read dev n off ≡ (pos n, read_bytes disk off n)

-- A file whose blocks, of 1024 bytes, and whose table, when it needs one, are among the first `limit` bytes of `disk`.
pub record IsVolume (disk : ℕ → ℕ) (limit : ℕ) (inod : Inode) (sb : Super) : Type 0 where
  pub block_size : sb.block_size ≡ 1024
  pub log_block_size : sb.log_block_size ≡ 0
  pub size : inod.size ≤ 268 * 1024
  pub indirect : 12 * 1024 < inod.size → inod.blocks 12 * 1024 + 1024 ≤ limit
  pub blocks : (k : ℕ) → k * 1024 < inod.size → block_of disk inod k * 1024 + 1024 ≤ limit

module _ (devfs_read : ℕ → ℕ → ℕ → ℤ × List ℕ) (disk : ℕ → ℕ) (limit : ℕ) (inod : Inode)
    (sb : Super) (device : IsDevice devfs_read disk limit sb.dev)
    (volume : IsVolume disk limit inod sb) where
  pub offset_to_block-block_of :
      (offset : ℕ)
      → offset < inod.size
      → offset_to_block devfs_read offset inod sb ≡ block (block_of disk inod (offset / 1024))
  unfolding offset_to_block block_of
  offset_to_block-block_of offset l =
      let k = offset / 1024 in
      elim (Bool-cases (ltb offset (12 * 1024))) [
        | inl direct ↦
            let near : offset < 12 * 1024 = ground (arith, direct) in
            let low : k % 256 ≡ k = omega (arith, near) in
            let entry : leb 15 k ≡ false = ground (arith, near) in
            let early : ltb k 12 ≡ true = ground (arith, near) in
            rw
              (volume.block_size, volume.log_block_size, direct, low, entry, early, offset_to_block)
              refl
        | inr indirect ↦
            let far : 12 * 1024 ≤ offset = ground (arith, indirect) in
            let size = volume.size in
            let single : ((k - 12) / 2 ^ 16 % 2 ^ 8 == 0) ≡ true = ground (arith, l, size) in
            let second : ((k - 12) / 2 ^ 8 % 2 ^ 8 == 0) ≡ true = ground (arith, l, size) in
            let low : (k - 12) % 2 ^ 8 ≡ k - 12 = omega (arith, l, size) in
            let late : ltb k 12 ≡ false = ground (arith, far) in
            let table_at = inod.blocks 12 * 1024 in
            let inside : table_at + 1024 ≤ limit = volume.indirect (omega (arith, far, l)) in
            let limit32 : limit < 2 ^ 32 = device.small in
            let place : table_at % 2 ^ 32 ≡ table_at = omega (arith, inside, limit32) in
            let table = device.reads 1024 table_at (omega arith) inside in
            rw
              (
                volume.block_size, volume.log_block_size, indirect, single, second, low, late,
                place, table,
              )
              refl
      ]

  read_bytes-file_byte :
      (p n : ℕ)
      → p % 1024 + n ≤ 1024
      → read_bytes (file_byte disk inod) p n
        ≡ read_bytes disk (block_of disk inod (p / 1024) * 1024 + p % 1024) n
  unfolding read_bytes file_byte
  read_bytes-file_byte p zero l = refl
  read_bytes-file_byte p (suc n) l = elim (Bool-cases (ltb (p % 1024 + 1) 1024)) [
    | inl inner ↦
        let inside : p % 1024 + 1 < 1024 = ground (arith, inner) in
        let same : (p + 1) / 1024 ≡ p / 1024 = omega (arith, inside) in
        let next : (p + 1) % 1024 ≡ p % 1024 + 1 = omega (arith, inside) in
        let at = block_of disk inod (p / 1024) * 1024 in
        let further : at + (p % 1024 + 1) ≡ at + p % 1024 + 1 = omega arith in
        ap (λ r. disk (at + p % 1024) ∷ r)
          (rw (same, next, further) at (read_bytes-file_byte (p + 1) n (omega (arith, l, inside))))
    | inr edge ↦ let last : n ≡ 0 = ground (arith, l, edge) in rw last refl
  ]

  -- A round within a block gives its bytes.
  read_part-read_bytes :
      (b left off : ℕ)
      → 0 < left
      → b * 1024 + 1024 ≤ limit
      → read_part devfs_read (block b) left off sb
        ≡ some (
          lesser left (1024 - off % 1024),
          read_bytes disk (b * 1024 + off % 1024) (lesser left (1024 - off % 1024)),
        )
  read_part-read_bytes b left off positive inside =
      let m = lesser left (1024 - off % 1024) in
      let limit32 : limit < 2 ^ 32 = device.small in
      let some_bytes : 0 < m = ground (arith, positive) in
      let part : off % 1024 + m ≤ 1024 = ground arith in
      let place : (b * 1024 + off % 1024) % 2 ^ 32 ≡ b * 1024 + off % 1024 =
        omega (arith, inside, limit32) in
      let range : b * 1024 + off % 1024 + m ≤ limit = omega (arith, inside, part) in
      let read = device.reads m (b * 1024 + off % 1024) some_bytes range in
      let int : leb (2 ^ 31) b ≡ false = ground (arith, inside, limit32) in
      let all : (m == m) ≡ true = ground arith in rw (volume.block_size, place, read, int, all) refl

  read_loop-file_byte :
      (fuel left file_off off : ℕ)
      → left ≤ fuel
      → (left ≡ 0) ⊎ (file_off % 1024 ≡ off % 1024)
      → file_off + left ≤ inod.size
      → read_loop devfs_read fuel left file_off off inod sb
        ≡ copied 0 (read_bytes (file_byte disk inod) file_off left)
  unfolding read_loop
  read_loop-file_byte zero zero file_off off l same within =
      ap (copied 0) (sym (read_bytes-zero (file_byte disk inod) file_off))
  read_loop-file_byte zero (suc left) file_off off l same within = absurd (omega (arith, l))
  read_loop-file_byte (suc fuel) zero file_off off l same within =
      ap (copied 0) (sym (read_bytes-zero (file_byte disk inod) file_off))
  read_loop-file_byte (suc fuel) (suc left) file_off off l same within =
      let m = lesser (suc left) (1024 - file_off % 1024) in
      let bytes = file_byte disk inod in
      let k : file_off / 1024 * 1024 < inod.size = omega (arith, within) in
      let at = offset_to_block-block_of file_off (omega (arith, within)) in
      let part_at =
        read_part-read_bytes (block_of disk inod (file_off / 1024)) (suc left) off (omega arith)
          (volume.blocks (file_off / 1024) k) in
      let some_left : (suc left == 0) ≡ false = ground arith in
      let start : file_off % 1024 ≡ off % 1024 = ground (arith, same) in
      let part = rw (sym start) at part_at in
      let few : m ≤ suc left = ground arith in
      let inner : file_off % 1024 + m ≤ 1024 = ground (arith, start) in
      let again : (suc left - m ≡ 0) ⊎ ((file_off + m) % 1024 ≡ 0 % 1024) = ground (arith, start) in
      let rest =
        read_loop-file_byte fuel (suc left - m) (file_off + m) 0 (ground (arith, l)) again
          (omega (arith, within, few)) in
      let here = read_bytes-file_byte file_off m inner in
      let all : m + (suc left - m) ≡ suc left = omega (arith, few) in
      let joined : read_bytes bytes file_off m ++ read_bytes bytes (file_off + m) (suc left - m)
          ≡ read_bytes bytes file_off (suc left) =
        rw all at (read_bytes-append bytes file_off m (suc left - m)) in
      rw (some_left, at, part, rest, sym here) (ap (copied 0) joined)

-- On a device that gives the bytes of a disk, and a volume of blocks of 1024 bytes in them,
-- `ext2_read` of a file of at most 268 * 1024 bytes, which needs no further tables than the
-- first, from an offset within the file that gives less than 2 ^ 32 with the count, returns the
-- count, or what is left of the file when that is less, and copies exactly the bytes of the
-- file from the offset on.
pub ext2_read-file_byte :
    (devfs_read : ℕ → ℕ → ℕ → ℤ × List ℕ) (disk : ℕ → ℕ) (limit : ℕ) (inod : Inode) (sb : Super)
    (count off : ℕ)
    → IsDevice devfs_read disk limit sb.dev
    → IsVolume disk limit inod sb
    → off ≤ inod.size
    → off + count < 2 ^ 32
    → ext2_read devfs_read count off inod sb
      ≡ some (
        lesser count (inod.size - off),
        read_bytes (file_byte disk inod) off (lesser count (inod.size - off)),
      )
unfolding ext2_read
ext2_read-file_byte devfs_read disk limit inod sb count off device volume start range =
    let size = volume.size in
    let n = lesser count (inod.size - off) in
    let wrap : (off + count) % 2 ^ 32 ≡ off + count = omega (arith, range) in
    let cut : (if ltb inod.size (off + count) then inod.size - off else count) ≡ n =
      ground (arith, start) in
    let inside : ltb inod.size off ≡ false = ground (arith, start) in
    let int : leb (2 ^ 31) n ≡ false = ground (arith, size) in
    let few : off + n ≤ inod.size = ground (arith, start) in
    let loop =
      read_loop-file_byte devfs_read disk limit inod sb device volume n n off off (omega arith)
        (inr refl) few in
    let copied_all : n - 0 ≡ n = omega arith in rw (wrap, cut, inside, int, loop, copied_all) refl
