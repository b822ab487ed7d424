-- ===== src/Htable/Hashes.antt =====
-- kernel/src/htable.h: the hash of a key is an index of the table.
use beeos.Prelude.{ℕ, ◌<◌, ◌^◌, arith}
use beeos.Htable.{hash_64}

-- A table of 2 ^ bits slots has a slot for every key, for the 3 bits of the inodes and the 5 of a
-- cache.
pub hash_64-lt : (val : ℕ) → (hash_64 val 3 < 2 ^ 3) × (hash_64 val 5 < 2 ^ 5)
unfolding hash_64
hash_64-lt val = (omega arith, omega arith)
