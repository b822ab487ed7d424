-- ===== src/Fds.antt =====
-- File descriptors of the current process: kernel/src/sys/sys_close.c, sys_dup.c and sys_dup2.c. A
-- pointer to an open file or to a dentry is its address.
pub mod Counts
pub mod Flags
pub mod Offsets
mod Tests
use Prim.Native.Nat.{bit_and}
use beeos.Prelude.{
  ℕ, zero, suc, ◌+◌, ◌-◌, ◌*◌, ◌/◌, ◌%◌, ◌^◌, Bool, true, false, not, ◌&&◌, Option, none, some,
  List, [], ◌∷◌, leb, ◌==◌, if◌then◌else◌, get_elem?, set,
}
use beeos.Prelude.Int.{ℤ, pos, negsuc}

abbrev pub open_max : ℕ
open_max = 32

-- The flag that marks a descriptor in sys_open.c and sys_execve.c, and the one of dup and dup2.
abbrev pub o_cloexec : ℕ
o_cloexec = 2 ^ 12

abbrev pub fd_cloexec : ℕ
fd_cloexec = 1

-- `flags & bit` and `flags & ~bit`, for a single bit.
abbrev pub keep_bit : ℕ → ℕ → ℕ
keep_bit bit flags = (flags / bit) % 2 * bit

abbrev pub clear_bit : ℕ → ℕ → ℕ
clear_bit bit flags = flags - keep_bit bit flags

-- `struct filedesc`
pub record Desc : Type 0 where
  pub flags : ℕ
  pub fil : Option ℕ

-- `struct file`
pub record File : Type 0 where
  pub flags : ℕ
  pub ref : ℕ
  pub mode : ℕ
  pub off : ℕ
  pub dent : ℕ

-- What is used of a `struct dentry` and its inode.
pub record Dent : Type 0 where
  pub ref : ℕ
  pub mode : ℕ
  pub size : ℕ

-- The descriptors of the current process, its terminal, and the objects that they lead to.
-- `pokes` are the dentries whose pipe was sent an empty write by `sys_close`.
pub record Table : Type 0 where
  pub fds : List Desc
  pub tty : ℕ
  pub files : ℕ → Option File
  pub dents : ℕ → Dent
  pub pokes : List ℕ

pub data Reply : Type 0 where
  ret : ℕ → Reply
  ebadf emfile einval enoent enomem : Reply

abbrev pub no_desc : Desc
no_desc = record { flags = 0; fil = none }

pub update {ℓ} : {A : Type ℓ} → (ℕ → A) → ℕ → A → ℕ → A
update h p v q = if q == p then v else h q

-- `current->fds[i].fil`
abbrev pub fil_at : List Desc → ℕ → Option ℕ
fil_at ds i = elim (get_elem? ds i) [ none ↦ none | some d ↦ d.fil ]

abbrev pub flags_at : List Desc → ℕ → ℕ
flags_at ds i = elim (get_elem? ds i) [ none ↦ 0 | some d ↦ d.flags ]

-- The index of a descriptor within the limits, `fd < 0 || fd >= OPEN_MAX` being the error.
abbrev pub in_range : ℤ → Option ℕ
in_range (pos i) = if leb open_max i then none else some i
in_range (negsuc n) = none

-- The loops over the descriptors for one that is free.
pub free_slot : List Desc → ℕ → Option ℕ
free_slot [] i = none
free_slot (d ∷ ds) i = elim d.fil [ none ↦ some i | some p ↦ free_slot ds (i + 1) ]

-- `fil->ref++`
abbrev pub count_up : (ℕ → Option File) → ℕ → ℕ → Option File
count_up files p = elim (files p) [
  | none ↦ files
  | some f ↦ update files p (some (record f { ref = f.ref + 1 }))
]

-- `fil->ref--`, and what is done at 0: a pipe is written to, the dentry is put, the file freed.
pub release : Table → ℕ → File → Table
unfolding update
release s p f =
    let d = s.dents f.dent in
    if f.ref - 1 == 0
    then record s {
      files = update s.files p none;
      dents = update s.dents f.dent (record d { ref = d.ref - 1 });
      pokes = if (d.mode / 2 ^ 12) % 16 == 1 then f.dent ∷ s.pokes else s.pokes;
    }
    else record s { files = update s.files p (some (record f { ref = f.ref - 1 })) }

-- `sys_close` of an open descriptor.
pub close_at : Table → ℕ → ℕ → Table
unfolding release
close_at s i p =
    let s' = record s { fds = set s.fds i no_desc } in
    elim (s.files p) [ none ↦ s' | some f ↦ release s' p f ]

-- The test that the calls begin with: `k` is what follows for the descriptor `i`, open on `p`.
pub with_open : Table → ℤ → (ℕ → ℕ → Reply × Table) → Reply × Table
with_open s fd k = elim (in_range fd) [
  | none ↦ (ebadf, s)
  | some i ↦ elim (fil_at s.fds i) [ none ↦ (ebadf, s) | some p ↦ k i p ]
]

pub close : Table → ℤ → Reply × Table
unfolding close_at with_open
close s fd = with_open s fd λ i p. (ret 0, close_at s i p)

-- The descriptor `old`, open on the file `p`, copied to `new`.
pub copy_to : Table → ℕ → ℕ → ℕ → Table
unfolding update
copy_to s old p new = record s {
  fds = set s.fds new (record { flags = clear_bit fd_cloexec (flags_at s.fds old); fil = some p });
  files = count_up s.files p;
}

pub dup_at : Table → ℕ → ℕ → Reply × Table
unfolding free_slot copy_to
dup_at s old p = elim (free_slot s.fds 0) [
  | none ↦ (emfile, s)
  | some new ↦ (ret new, copy_to s old p new)
]

pub dup : Table → ℤ → Reply × Table
unfolding dup_at with_open
dup s oldfd = with_open s oldfd (dup_at s)

-- `dup2` once both arguments are in range and the old descriptor is open on `p`.
pub dup2_at : Table → ℕ → ℕ → ℕ → Reply × Table
unfolding close_at copy_to
dup2_at s old p new =
    if old == new
    then (ret old, s)
    else (let s' : Table = elim (fil_at s.fds new) [ none ↦ s | some q ↦ close_at s new q ] in
        (ret new, copy_to s' old p new))

pub dup2 : Table → ℤ → ℤ → Reply × Table
unfolding dup2_at with_open
dup2 s oldfd newfd = elim (in_range newfd) [
  | none ↦ (ebadf, s)
  | some new ↦ with_open s oldfd λ old p. dup2_at s old p new
]
