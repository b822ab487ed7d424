-- ===== src/Devfs/Volumes.antt =====
-- kernel/src/fs: a file of an ext2 volume on the disk in memory, read by way of its device.
use beeos.Prelude.{ℕ, ◌+◌, ◌-◌, ◌*◌, ◌/◌, ◌^◌, ◌≤◌, ◌<◌, ◌≡◌, refl, some, List, [], ◌∷◌, arith}
use beeos.Prelude.Int.{ℤ, pos, negsuc}
use beeos.Vfs.{same_name}
use beeos.Ramdisk.{Ramdisk, read_bytes}
use beeos.Ramdisk.Reads.{ramdisk_read-bytes}
use beeos.Ext2.{Super, Inode, lesser, ext2_read}
use beeos.Ext2.Files.{IsDevice, IsVolume, file_byte, ext2_read-file_byte}
use beeos.Devfs.{
  Devfs, named_in, rdev_of, dev_to_inode, Reply, result, asks_terminal, asks_random, devfs_read,
  devfs_lookup, devfs_inode_read, driver_of, name_to_dev,
}
use beeos.Devfs.Nodes.{dev_to_inode-devfs_lookup}

-- A reply that needs no other driver; the others do not come from a disk.
abbrev pub settled : Reply → ℤ × List ℕ
settled (result n bytes) = (n, bytes)
settled (asks_terminal dev count) = (negsuc 0, [])
settled (asks_random count) = (negsuc 0, [])

abbrev pub disk_read : Ramdisk → Devfs → ℕ → ℕ → ℕ → ℤ × List ℕ
disk_read d s dev n off = settled (devfs_read dev n off d s)

abbrev pub initrd : List ℕ
initrd = b'i' ∷ b'n' ∷ b'i' ∷ b't' ∷ b'r' ∷ b'd' ∷ []

pub initrd-name_to_dev : name_to_dev initrd ≡ 0x01fa
unfolding name_to_dev named_in same_name
initrd-name_to_dev = refl

devfs_read-dev_to_inode :
    (dev n off : ℕ) (d : Ramdisk) (s : Devfs) (x : ℕ)
    → dev_to_inode dev s ≡ some x
    → devfs_read dev n off d s ≡ devfs_inode_read (rdev_of s.inodes x) n off d
unfolding devfs_read
devfs_read-dev_to_inode dev n off d s x e = rw (e, devfs_read) refl

devfs_read-initrd :
    (d : Ramdisk) (s : Devfs) (x n off : ℕ)
    → devfs_lookup initrd s ≡ some x
    → d.size < 2 ^ 32 - 512
    → 0 < n
    → off + n ≤ d.size / 512 * 512
    → disk_read d s 0x01fa n off ≡ (pos n, read_bytes d.bytes off n)
unfolding devfs_inode_read driver_of
devfs_read-initrd d s x n off found small positive within =
    let (at, rdev) = dev_to_inode-devfs_lookup initrd s x found in
    let here = rw initrd-name_to_dev at at in
    let dev = rw initrd-name_to_dev at rdev in
    let served = devfs_read-dev_to_inode 0x01fa n off d s x here in
    rw (served, dev, ramdisk_read-bytes n off d small positive within) refl

-- On a disk of less than 2 ^ 32 - 512 bytes whose node `devfs_lookup` finds, and a volume of
-- blocks of 1024 bytes in its whole blocks, `ext2_read` of a file of at most 268 * 1024 bytes,
-- from an offset within the file that gives less than 2 ^ 32 with the count, goes by way of
-- that node: it returns the count, or what is left of the file when that is less, and copies
-- exactly the bytes of the file from the offset on.
pub ext2_read-initrd :
    (d : Ramdisk) (s : Devfs) (x : ℕ) (inod : Inode) (sb : Super) (count off : ℕ)
    → devfs_lookup initrd s ≡ some x
    → d.size < 2 ^ 32 - 512
    → sb.dev ≡ 0x01fa
    → IsVolume d.bytes (d.size / 512 * 512) inod sb
    → off ≤ inod.size
    → off + count < 2 ^ 32
    → ext2_read (disk_read d s) count off inod sb
      ≡ some (
        lesser count (inod.size - off),
        read_bytes (file_byte d.bytes inod) off (lesser count (inod.size - off)),
      )
ext2_read-initrd d s x inod sb count off found small dev volume start range =
    let device : IsDevice (disk_read d s) d.bytes (d.size / 512 * 512) sb.dev = record {
      small = omega (arith, small);
      reads = λ n off' positive within.
          rw dev (devfs_read-initrd d s x n off' found small positive within);
    } in
    ext2_read-file_byte (disk_read d s) d.bytes (d.size / 512 * 512) inod sb count off device volume
      start range
