-- ===== src/Vfs/Inodes/Tests.antt =====
-- A table with one inode.
use beeos.Prelude.{ℕ, ◌+◌}
use beeos.Prelude.Int.{pos}
use beeos.Htable.{hash_64, insert_at}
use beeos.Vfs.Inodes.{Inodes, Attributes, inode_key}

abbrev plain : Attributes
plain = record { mode = 0; rdev = 0; uid = 0; gid = 0; size = 0 }

abbrev none_yet : Inodes
none_yet = record {
  links = record { next = λ q. 0; pprev = λ q. 0 };
  inode_htable = 100;
  inode = λ q. record { sb = 0; ino = 0; ref = pos 0; attributes = plain };
  dev = λ sb. 1;
}

-- The inode 5 is on the device 1 under the number 7, with two references, in the slot of its key.
abbrev home : ℕ
home = hash_64 (inode_key 1 7) 3

abbrev one : Inodes
one = record none_yet {
  links = insert_at (100 + home) 5 none_yet.links;
  inode = λ q. record { sb = 2; ino = 7; ref = pos 2; attributes = plain };
}
