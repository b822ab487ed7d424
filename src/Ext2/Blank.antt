-- ===== src/Ext2/Blank.antt =====
-- kernel/src/fs/ext2/ext2.c: files on a disk of zeros, whose table of further blocks names the block 0.
use beeos.Prelude.{
  ℕ, zero, suc, ◌+◌, ◌-◌, ◌*◌, ◌≤◌, ◌≡◌, refl, Bool-cases, inl, inr, get_or, arith, ltb,
}
use beeos.Ramdisk.{read_bytes}
use beeos.Ext2.{Super, Inode, word_at}
use beeos.Ext2.Files.{IsVolume, block_of}

get_or-read_bytes : (p n i : ℕ) → get_or (read_bytes (λ q. 0) p n) i 0 ≡ 0
unfolding read_bytes
get_or-read_bytes p zero i = refl
get_or-read_bytes p (suc n) zero = refl
get_or-read_bytes p (suc n) (suc i) = get_or-read_bytes (p + 1) n i

word_at-zeros : (p n i : ℕ) → word_at (read_bytes (λ q. 0) p n) i ≡ 0
unfolding word_at
word_at-zeros p n i =
    let byte = λ (j : ℕ). get_or-read_bytes p n j in
    rw (byte (4 * i), byte (4 * i + 1), byte (4 * i + 2), byte (4 * i + 3)) refl

pub blank-IsVolume :
    (limit : ℕ) (inod : Inode) (sb : Super)
    → sb.block_size ≡ 1024
    → sb.log_block_size ≡ 0
    → inod.size ≤ 268 * 1024
    → ((k : ℕ) → inod.blocks k * 1024 + 1024 ≤ limit)
    → IsVolume (λ q. 0) limit inod sb
unfolding block_of
blank-IsVolume limit inod sb size log short inside = record {
  block_size = size;
  log_block_size = log;
  size = short;
  indirect = λ l. inside 12;
  blocks = λ k l. elim (Bool-cases (ltb k 12)) [
    | inl early ↦ rw early (inside k)
    | inr late ↦
        let first = inside 12 in
        rw (late, word_at-zeros (inod.blocks 12 * 1024) 1024 (k - 12)) (omega (arith, first))
  ];
}
