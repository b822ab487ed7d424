-- ===== src/Vfs.antt =====
-- kernel/src/fs/vfs.c: directory entries, mounts and paths. An entry is its address; the children of
-- one are in the order of its list. What a file system finds in a directory, and whether an entry
-- can be allocated, and where, are parameters.

pub mod Inodes
pub mod Names
pub mod Paths
pub mod Climbs
mod Tests
use beeos.Prelude.{
  ℕ, zero, suc, ◌+◌, ◌-◌, Bool, true, false, not, ◌&&◌, Option, none, some, List, [], ◌∷◌, ◌++◌,
  length, take, leb, ltb, ◌==◌, if◌then◌else◌,
}
use beeos.Prelude.Int.{ℤ, pos, negsuc, ◌+ℤ◌}

abbrev pub name_max : ℕ
name_max = 64

pub record Dentry : Type 0 where
  pub name : List ℕ
  pub ref : ℤ
  pub inod : ℕ
  pub parent : ℕ
  pub child : List ℕ
  pub mounted : Bool

pub record Mount : Type 0 where
  pub mntpt : ℕ
  pub root : ℕ

-- `root_dir` and `cwd` are those of the current task, `is_dir` is `S_ISDIR` of the mode of an inode,
-- `inode_ref` its counter.
pub record Vfs : Type 0 where
  pub dentry : ℕ → Dentry
  pub mounts : List Mount
  pub root_dir : ℕ
  pub cwd : ℕ
  pub is_dir : ℕ → Bool
  pub inode_ref : ℕ → ℤ

abbrev pub put_dentry : ℕ → Dentry → Vfs → Vfs
put_dentry d v s = record s { dentry = λ q. if q == d then v else s.dentry q }

-- `strcmp(...) == 0`
unfoldable pub same_name : List ℕ → List ℕ → Bool
same_name [] [] = true
same_name [] (y ∷ ys) = false
same_name (x ∷ xs) [] = false
same_name (x ∷ xs) (y ∷ ys) = (x == y) && same_name xs ys

-- `while (*path == '/') path++;`
unfoldable pub skip_slashes : List ℕ → List ℕ
skip_slashes [] = []
skip_slashes (c ∷ cs) = let rest = skip_slashes cs in if c == b'/' then rest else c ∷ cs

-- `while (*path != '/' && *path != 0) path++;`: what it passes, and what is left.
unfoldable pub element : List ℕ → List ℕ × List ℕ
element [] = ([], [])
element (c ∷ cs) = let rest = element cs in if c == b'/' then ([], c ∷ cs) else (c ∷ rest.0, rest.1)

-- What is in the array `name`, and whether a 0 stands behind it.
abbrev pub copied_name : List ℕ → List ℕ × Bool
copied_name s = if leb name_max (length s) then (take name_max s, false) else (s, true)

abbrev pub element_of : List ℕ → Option ((List ℕ × Bool) × List ℕ)
element_of [] = none
element_of (c ∷ cs) = let e = element (c ∷ cs) in some (copied_name e.0, skip_slashes e.1)

unfoldable pub skipelem : List ℕ → Option ((List ℕ × Bool) × List ℕ)
unfolding skip_slashes element
skipelem path = element_of (skip_slashes path)

abbrev pub ddup : ℕ → Vfs → Vfs
ddup d s = put_dentry d (record (s.dentry d) { ref = (s.dentry d).ref +ℤ pos 1 }) s

pub dput : ℕ → Vfs → Vfs
dput d s = put_dentry d (record (s.dentry d) { ref = (s.dentry d).ref +ℤ negsuc 0 }) s

-- `dentry_create` at the address `d`; the root is its own parent.
pub dentry_create : ℕ → List ℕ → Option ℕ → Vfs → Vfs
dentry_create d name none s =
    put_dentry d
      (record { name = name; ref = pos 0; inod = 0; parent = d; child = d ∷ []; mounted = false }) s
dentry_create d name (some p) s =
    let s' =
      put_dentry d
        (record { name = name; ref = pos 0; inod = 0; parent = p; child = []; mounted = false })
        s in
    put_dentry p (record (s'.dentry p) { child = (s'.dentry p).child ++ (d ∷ []) }) s'

-- The loop of `dentry_lookup`.
pub lookup_in : Vfs → List ℕ → List ℕ → Option ℕ
unfolding same_name
lookup_in s name [] = none
lookup_in s name (d ∷ ds) =
    let rest = lookup_in s name ds in if same_name (s.dentry d).name name then some d else rest

unfoldable pub dentry_lookup : Vfs → ℕ → List ℕ → Option ℕ
unfolding lookup_in
dentry_lookup s dir name = lookup_in s name (s.dentry dir).child

unfoldable pub do_mount : Bool → ℕ → ℕ → Vfs → Bool × Vfs
do_mount false mntpt root s = (false, s)
do_mount true mntpt root s =
    let s' = ddup root (ddup mntpt s) in
    let s'' = record s' { mounts = record { mntpt = mntpt; root = root } ∷ s'.mounts } in
    (true, put_dentry mntpt (record (s''.dentry mntpt) { mounted = true }) s'')

-- The first mount whose root is the entry, and the first that is mounted on it.
pub mounted_at : List Mount → ℕ → Option ℕ
mounted_at [] d = none
mounted_at (m ∷ ms) d = let rest = mounted_at ms d in if m.root == d then some m.mntpt else rest

pub mounted_on : List Mount → ℕ → Option ℕ
mounted_on [] d = none
mounted_on (m ∷ ms) d = let rest = mounted_on ms d in if m.mntpt == d then some m.root else rest

-- After every mount that it follows, the loop starts again.
unfoldable pub follow_up : ℕ → ℕ → Vfs → Option (ℕ × Vfs)
unfolding mounted_at dput
follow_up zero res s = none
follow_up (suc n) res s = elim (mounted_at s.mounts res) [
  | none ↦ some (res, s)
  | some p ↦ follow_up n p (ddup p (dput p s))
]

pub follow_down : ℕ → ℕ → Vfs → Option (ℕ × Vfs)
unfolding mounted_on dput
follow_down zero res s = none
follow_down (suc n) res s = elim (mounted_on s.mounts res) [
  | none ↦ some (res, s)
  | some r ↦ follow_down n r (ddup r (dput res s))
]
