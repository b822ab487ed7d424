-- ===== src/Devfs/Tests.antt =====
-- The node of the disk in memory, and a file of three bytes on it.
use beeos.Prelude.{inl, inr, true, ◌≡◌, refl, some, [], ◌∷◌, arith}
use beeos.Prelude.Int.{ℤ, pos}
use beeos.Ramdisk.{Ramdisk, read_bytes}
use beeos.Ext2.{Super, Inode, ext2_read}
use beeos.Ext2.Blank.{blank-IsVolume}
use beeos.Ext2.Files.{IsVolume, file_byte}
use beeos.Devfs.{names, Devfs, devfs_lookup, devfs_mknod, is_device}
use beeos.Devfs.Nodes.{Names, devfs_lookup-devfs_mknod}
use beeos.Devfs.Volumes.{disk_read, initrd, ext2_read-initrd}

abbrev no_nodes : Devfs
no_nodes = record {
  nodes = [];
  ino = 0;
  inodes = record {
    links = record { next = λ q. 0; pprev = λ q. 0 };
    inode_htable = 100;
    inode = λ q. record {
      sb = 0;
      ino = 0;
      ref = pos 0;
      attributes = record { mode = 0; rdev = 0; uid = 0; gid = 0; size = 0 };
    };
    dev = λ sb. 0;
  };
}

abbrev with_disk : ℤ × Devfs
with_disk = devfs_mknod (some 5) 1 0x6000 0x01fa no_nodes

block_mode : is_device 0x6000 ≡ true
unfolding is_device
block_mode = refl

initrd-Names : Names names initrd 0x01fa
unfolding Names
initrd-Names = inr (inr (inr (inr (inr (inr (inr (inr (inl (refl, refl)))))))))

devfs_lookup-devfs_mknod_example :
    (with_disk.0 ≡ pos 0) × (devfs_lookup initrd with_disk.1 ≡ some 5)
devfs_lookup-devfs_mknod_example =
    devfs_lookup-devfs_mknod 5 1 0x6000 0x01fa no_nodes initrd 0x01fa block_mode tt tt initrd-Names

disk_node : devfs_lookup initrd with_disk.1 ≡ some 5
disk_node =
    (devfs_lookup-devfs_mknod 5 1 0x6000 0x01fa no_nodes initrd 0x01fa block_mode tt tt
      initrd-Names).1

abbrev blank : Ramdisk
blank = record { bytes = λ q. 0; size = 4096 }

abbrev super : Super
super = record {
  dev = 0x01fa;
  block_size = 1024;
  log_block_size = 0;
  inodes_per_group = 8;
  inode_table = λ g. 5;
}

abbrev file : Inode
file = record { size = 3; blocks = λ k. 2 }

file-IsVolume : IsVolume (λ q. 0) 4096 file super
file-IsVolume = blank-IsVolume 4096 file super refl refl (omega arith) (λ k. omega arith)

ext2_read-initrd_example :
    ext2_read (disk_read blank with_disk.1) 5 1 file super ≡ some (2, 0 ∷ 0 ∷ [])
unfolding read_bytes file_byte
ext2_read-initrd_example =
    ext2_read-initrd blank with_disk.1 5 file super 5 1 disk_node (omega arith) refl file-IsVolume
      (omega arith) (omega arith)
