-- ===== src/Ext2/Directories/Tests.antt =====
-- A directory of 280 bytes with three entries, a, b and c, of which the last is not seen.
use beeos.Prelude.{ℕ, ◌++◌, replicate, true, ◌≡◌, refl, some, List, [], ◌∷◌, arith}
use beeos.Ext2.Directories.{Entry, ext2_lookup, ext2_readdir}
use beeos.Prelude.Int.{ℤ, pos}
use beeos.Vfs.{same_name}
use beeos.Ext2.{Super, Inode}
use beeos.Ext2.Directories.Entries.{
  Chars, Written, Laid, visible, ino_named, nth_listed, ext2_lookup-ext2_readdir,
}

abbrev one : Entry
one = record { ino = 2; rec_len = 12; name = b'a' ∷ [] }

abbrev two : Entry
two = record { ino = 7; rec_len = 256; name = b'b' ∷ [] }

-- Its inode has the number 65544.
abbrev three : Entry
three = record { ino = 65544; rec_len = 12; name = b'c' ∷ [] }

abbrev block : List ℕ
block =
    2 ∷ 0 ∷ 0 ∷ 0 ∷ 12 ∷ 0 ∷ 1 ∷ 2 ∷ b'a' ∷ 0 ∷ 0 ∷ 0 ∷ 7 ∷ 0 ∷ 0 ∷ 0 ∷ 0 ∷ 1 ∷ 1 ∷ 1 ∷ b'b' ∷ []
    ++ replicate 247 0
    ++ (8 ∷ 0 ∷ 1 ∷ 0 ∷ 12 ∷ 0 ∷ 1 ∷ 1 ∷ b'c' ∷ 0 ∷ 0 ∷ 0 ∷ [])

one-Written : Written block 0 one
unfolding Chars
one-Written = record {
  ino_range = omega arith;
  ino_low = refl;
  ino_second = refl;
  ino_third = refl;
  ino_high = refl;
  len_range = omega arith;
  len_low = refl;
  len_high = refl;
  name_len = refl;
  name = (refl, tt);
}

two-Written : Written block 12 two
unfolding Chars
two-Written = record {
  ino_range = omega arith;
  ino_low = refl;
  ino_second = refl;
  ino_third = refl;
  ino_high = refl;
  len_range = omega arith;
  len_low = refl;
  len_high = refl;
  name_len = refl;
  name = (refl, tt);
}

three-Written : Written block 268 three
unfolding Chars
three-Written = record {
  ino_range = omega arith;
  ino_low = refl;
  ino_second = refl;
  ino_third = refl;
  ino_high = refl;
  len_range = omega arith;
  len_low = refl;
  len_high = refl;
  name_len = refl;
  name = (refl, tt);
}

block-Laid : Laid block 0 280 (one ∷ two ∷ three ∷ [])
unfolding Laid
block-Laid = (
  one-Written,
  omega arith,
  omega arith,
  (two-Written, omega arith, omega arith, (three-Written, omega arith, omega arith, refl)),
)

abbrev blocks : ℕ → ℕ → ℕ → ℤ × List ℕ
blocks dev n off = (pos n, block)

abbrev super : Super
super = record {
  dev = 1;
  block_size = 1024;
  log_block_size = 0;
  inodes_per_group = 8;
  inode_table = λ g. 5;
}

abbrev root : Inode
root = record { size = 280; blocks = λ k. 9 }

ext2_lookup-ext2_readdir_example :
    (ext2_lookup blocks true (b'b' ∷ []) root super ≡ some (some 7))
    × (ext2_readdir blocks true 0 root super ≡ some (pos 0, some (2, b'a' ∷ [])))
unfolding ino_named nth_listed visible same_name
ext2_lookup-ext2_readdir_example =
    ext2_lookup-ext2_readdir blocks root super block (one ∷ two ∷ three ∷ []) (b'b' ∷ []) 0 refl
      block-Laid
