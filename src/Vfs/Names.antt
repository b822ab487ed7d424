-- ===== src/Vfs/Names.antt =====
-- kernel/src/fs/vfs.c: from a path to an entry (dget, named), and back (dentry_path).
pub mod Ends
use beeos.Prelude.{
  ℕ, zero, suc, ◌-◌, Bool, not, Option, none, some, List, [], ◌∷◌, ◌++◌, length, ltb, ◌==◌,
  if◌then◌else◌,
}
use beeos.Prelude.Int.{pos, ◌+ℤ◌}
use beeos.Vfs.{
  Vfs, put_dentry, same_name, skipelem, ddup, dput, dentry_create, dentry_lookup, follow_up,
  follow_down,
}

abbrev pub idup : ℕ → Vfs → Vfs
idup i s = record s { inode_ref = λ q. if q == i then s.inode_ref i +ℤ pos 1 else s.inode_ref q }

-- `lookup` is what the file system finds in a directory, `kmalloc` the address of a new entry.
module _ (lookup : ℕ → List ℕ → Option ℕ) (kmalloc : Vfs → Option ℕ) where
  abbrev pub vfs_lookup : ℕ → List ℕ → Vfs → Option ℕ
  vfs_lookup idir name s = if s.is_dir idir then lookup idir name else none

  pub dget : ℕ → List ℕ → Vfs → Option ℕ × Vfs
  unfolding dentry_create dentry_lookup
  dget dir name s = elim (dentry_lookup s dir name) [
    | some d ↦ (some d, ddup d s)
    | none ↦ elim (vfs_lookup (s.dentry dir).inod name s) [
      | none ↦ (none, s)
      | some i ↦ elim (kmalloc s) [
        | none ↦ (none, s)
        | some d ↦
            let s1 = dentry_create d name (some dir) s in
            (some d, ddup d (put_dentry d (record (s1.dentry d) { inod = i }) (idup i s1)))
      ]
    ]
  ]

-- How `named` ends; in `unterminated` it reads behind the end of the array `name`.
pub data Named : Type 0 where
  found : ℕ → Vfs → Named
  missing unterminated : Vfs → Named
  no_rounds : Named

abbrev pub is_dir_at : Vfs → ℕ → Bool
is_dir_at s d = s.is_dir (s.dentry d).inod

abbrev pub slash : List ℕ
slash = b'/' ∷ []

abbrev pub dot : List ℕ
dot = b'.' ∷ []

abbrev pub dot_dot : List ℕ
dot_dot = b'.' ∷ b'.' ∷ []

-- `if (strcmp(dent->name, "/") == 0) dent = follow_up(dent);`
unfoldable pub up_from : ℕ → ℕ → Vfs → Option (ℕ × Vfs)
unfolding same_name follow_up
up_from turns d s = if same_name (s.dentry d).name slash then follow_up turns d s else some (d, s)

-- `if (dent->mounted != 0) dent = follow_down(dent);`
pub down_from : ℕ → ℕ → Vfs → Option (ℕ × Vfs)
unfolding follow_down
down_from turns d s = if (s.dentry d).mounted then follow_down turns d s else some (d, s)

abbrev pub named_end : ℕ → ℕ → Vfs → Named
named_end turns d s = elim (if is_dir_at s d then down_from turns d s else some (d, s)) [
  | none ↦ no_rounds
  | some (e, s') ↦ found e s'
]

module _ (lookup : ℕ → List ℕ → Option ℕ) (kmalloc : Vfs → Option ℕ) (turns : ℕ) where
  -- One round of `named` in a directory: the next entry.
  pub named_step : List ℕ → ℕ → Vfs → Option (Option ℕ × Vfs)
  unfolding same_name up_from down_from dput dget
  named_step name d s =
      if same_name name dot
      then some (some d, s)
      else if same_name name dot_dot
      then elim (up_from turns d s) [
        | none ↦ none
        | some (e, s') ↦ let p = (s'.dentry e).parent in some (some p, dput e (ddup p s'))
      ]
      else elim (down_from turns d s) [
        | none ↦ none
        | some (e, s') ↦ let r = dget lookup kmalloc e name s' in some (r.0, dput e r.1)
      ]

  pub named_loop : ℕ → List ℕ → ℕ → Vfs → Named
  unfolding skipelem named_step down_from
  named_loop zero path d s = no_rounds
  named_loop (suc n) path d s = elim (skipelem path) [
    | none ↦ named_end turns d s
    | some ((name, ended), rest) ↦
        let next : Named = elim (named_step name d s) [
          | none ↦ no_rounds
          | some (none, s') ↦ missing s'
          | some (some e, s') ↦ named_loop n rest e s'
        ] in
        if not (is_dir_at s d) then missing s else if ended then next else unterminated s
  ]

  -- A path has fewer elements than characters.
  pub named : List ℕ → Vfs → Named
  unfolding named_loop
  named [] s = missing s
  named (c ∷ cs) s =
      let start = if c == b'/' then s.root_dir else s.cwd in
      named_loop (suc (length (c ∷ cs))) (c ∷ cs) start (ddup start s)

-- How `dentry_path` ends: with the bytes that it has written from the start of the buffer on.
pub data Text : Type 0 where
  written : List ℕ → Vfs → Text
  too_long : Vfs → Text
  no_turns : Text

-- `text` is what stands in the buffer from `j` on.
unfoldable pub path_loop : ℕ → ℕ → ℕ → ℕ → ℕ → List ℕ → Vfs → Text
unfolding up_from
path_loop turns zero size d j text s = no_turns
path_loop turns (suc n) size d j text s = elim (up_from turns d s) [
  | none ↦ no_turns
  | some (c, s') ↦
      let name = (s'.dentry c).name in
      let parent = (s'.dentry c).parent in
      let rest = path_loop turns n size parent (j - length name - 1) (b'/' ∷ (name ++ text)) s' in
      let text' = if j == size then b'/' ∷ text else text in
      if c == parent
      then written (text' ++ (0 ∷ [])) s'
      else if ltb (length name) j
      then rest
      else too_long s'
]

unfoldable pub dentry_path : ℕ → ℕ → ℕ → ℕ → Vfs → Text
unfolding path_loop
dentry_path turns fuel d size s = path_loop turns fuel size d size [] s
