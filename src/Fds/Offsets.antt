-- ===== src/Fds/Offsets.antt =====
-- kernel/src/sys/sys_lseek.c, sys_read.c and sys_write.c: what they do to a file's position. The transfer
-- itself is a parameter, the number that `vfs_read`, `vfs_readdir` or `vfs_write` returns.
pub mod Seeks
use beeos.Prelude.{
  ℕ, zero, suc, ◌+◌, ◌-◌, ◌*◌, ◌/◌, ◌%◌, ◌^◌, ◌≤◌, ◌<◌, ◌≡◌, refl, ◌≢◌, ◌⊎◌, ap, ◌∙◌, inl, inr,
  Bool, true, false, Option, none, some, arith, leb, ltb, ◌==◌, if◌then◌else◌, Option-cases,
  Bool-cases,
}
use beeos.Prelude.Int.{ℤ, pos, negsuc, pos_part, neg_part, sub_ℕ, ◌+ℤ◌, to_long}
use beeos.Fds.{Table, Dent, File, fil_at, in_range, update}

-- What a call returns: a number, or a negative error number.
pub data Outcome : Type 0 where
  value : ℤ → Outcome
  bad_fd : Outcome
  invalid : Outcome

pub data Whence : Type 0 where
  seek_set seek_cur seek_end : Whence
  other : Whence

-- The `switch` of `sys_lseek`.
pub new_offset : File → Dent → ℤ → Whence → ℤ
new_offset f d offset seek_set = offset
new_offset f d offset seek_cur = to_long (pos f.off +ℤ offset)
new_offset f d offset seek_end = to_long (to_long (pos d.size) +ℤ offset)
new_offset f d offset other = negsuc 0

-- The end of `sys_lseek`, for an open file.
pub set_offset : Table → ℕ → File → ℤ → Outcome × Table
unfolding update
set_offset s p f (pos n) =
    (value (pos n), record s { files = update s.files p (some (record f { off = n })) })
set_offset s p f (negsuc n) = (invalid, s)

-- The file of a descriptor, with its address.
abbrev pub file_of : Table → ℤ → Option (ℕ × File)
file_of s fd = elim (in_range fd) [
  | none ↦ none
  | some i ↦ elim (fil_at s.fds i) [
    | none ↦ none
    | some p ↦ elim (s.files p) [ none ↦ none | some f ↦ some (p, f) ]
  ]
]

pub lseek : Table → ℤ → ℤ → Whence → Outcome × Table
unfolding new_offset set_offset
lseek s fd offset whence = elim (file_of s fd) [
  | none ↦ (bad_fd, s)
  | some (p, f) ↦ set_offset s p f (new_offset f (s.dents f.dent) offset whence)
]

-- `mode & S_IFMT`, as the number in its four bits.
abbrev pub kind : ℕ → ℕ
kind mode = (mode / 2 ^ 12) % 16

-- S_IFBLK, S_IFCHR, S_IFREG, S_IFIFO and S_IFSOCK.
abbrev pub is_stream : ℕ → Bool
is_stream k =
    if k == 6
    then true
    else (if k == 2 then true else (if k == 8 then true else (if k == 1 then true else k == 12)))

-- `if (n > 0) fil->off += n`, with the sum in 32 bits.
pub advance : Table → ℕ → File → ℤ → Outcome × Table
unfolding update
advance s p f (pos zero) = (value (pos 0), s)
advance s p f (pos (suc n)) = (
  value (pos (suc n)),
  record s { files = update s.files p (some (record f { off = (f.off + suc n) % 2 ^ 32 })) },
)
advance s p f (negsuc n) = (value (negsuc n), s)

-- `sizeof(struct dirent)` is a parameter; `readdir` is what `vfs_readdir` returns for an index.
module _ (dirent_size : ℕ) (transfer : File → ℤ) (readdir : File → ℕ → ℤ) where
  dir_result : ℤ → ℤ
  dir_result (pos zero) = pos dirent_size
  dir_result (pos (suc n)) = pos (suc n)
  dir_result (negsuc n) = negsuc n

  pub read_result : File → ℕ → ℤ
  unfolding dir_result
  read_result f mode =
      if is_stream (kind mode)
      then transfer f
      else (if kind mode == 4 then dir_result (readdir f (f.off / dirent_size)) else negsuc 0)

  unfoldable pub sys_read : Table → ℤ → Outcome × Table
  unfolding read_result advance
  sys_read s fd = elim (file_of s fd) [
    | none ↦ (bad_fd, s)
    | some (p, f) ↦ advance s p f (read_result f (s.dents f.dent).mode)
  ]

module _ (transfer : File → ℤ) where
  pub sys_write : Table → ℤ → Outcome × Table
  unfolding advance
  sys_write s fd = elim (file_of s fd) [
    | none ↦ (bad_fd, s)
    | some (p, f) ↦
        let mode = (s.dents f.dent).mode in
        if is_stream (kind mode)
        then advance s p f (transfer f)
        else (if kind mode == 4 then (bad_fd, s) else (value (negsuc 0), s))
  ]
