-- ===== src/Ext2/Tests.antt =====
-- A file of three bytes in a device of zeros.
use beeos.Prelude.{ℕ, ◌≡◌, refl, some, List, ◌∷◌, [], arith}
use beeos.Prelude.Int.{ℤ, pos}
use beeos.Ramdisk.{read_bytes}
use beeos.Ext2.{Super, Inode, ext2_read}
use beeos.Ext2.Blank.{blank-IsVolume}
use beeos.Ext2.Files.{IsDevice, IsVolume, file_byte, ext2_read-file_byte}

abbrev zeros : ℕ → ℕ → ℕ → ℤ × List ℕ
zeros dev n off = (pos n, read_bytes (λ q. 0) off n)

abbrev super : Super
super = record {
  dev = 1;
  block_size = 1024;
  log_block_size = 0;
  inodes_per_group = 8;
  inode_table = λ g. 5;
}

abbrev file : Inode
file = record { size = 3; blocks = λ k. 2 }

zeros-IsDevice : IsDevice zeros (λ q. 0) 4096 1
zeros-IsDevice = record { small = omega arith; reads = λ n off p l. refl }

file-IsVolume : IsVolume (λ q. 0) 4096 file super
file-IsVolume = blank-IsVolume 4096 file super refl refl (omega arith) (λ k. omega arith)

ext2_read-file_byte_example : ext2_read zeros 5 1 file super ≡ some (2, 0 ∷ 0 ∷ [])
unfolding read_bytes file_byte
ext2_read-file_byte_example =
    ext2_read-file_byte zeros (λ q. 0) 4096 file super 5 1 zeros-IsDevice file-IsVolume
      (omega arith) (omega arith)
