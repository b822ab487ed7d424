-- ===== src/Vfs/Tests.antt =====
-- Runs of paths on a root with a directory and a file in it.
use beeos.Prelude.{◌+◌, ◌≡◌, refl, true, false, [], ◌∷◌, ◌++◌, length, arith, ◌==◌, if◌then◌else◌}
use beeos.Prelude.Int.{pos}
use beeos.Vfs.{Vfs}
use beeos.Vfs.Names.{written, dentry_path}
use beeos.Vfs.Paths.{names}
use beeos.Vfs.Climbs.{Climbs, path_text, dentry_path-path_text, names-path_text}

-- The root at 0, in it `ab` at 1, and in that `c` at 2.
abbrev tree : Vfs
tree = record {
  dentry = λ d.
      if d == 1
      then record {
        name = 97 ∷ 98 ∷ [];
        ref = pos 1;
        inod = 1;
        parent = 0;
        child = 2 ∷ [];
        mounted = false;
      }
      else if d == 2
      then record { name = 99 ∷ []; ref = pos 1; inod = 2; parent = 1; child = []; mounted = false }
      else record {
        name = 47 ∷ [];
        ref = pos 1;
        inod = 0;
        parent = 0;
        child = 0 ∷ 1 ∷ [];
        mounted = false;
      };
  mounts = [];
  root_dir = 0;
  cwd = 0;
  is_dir = λ i. true;
  inode_ref = λ i. pos 1;
}

tree-Climbs : Climbs tree 2 ((99 ∷ []) ∷ (97 ∷ 98 ∷ []) ∷ [])
unfolding Climbs
tree-Climbs = (refl, (λ e. cc), (refl, (λ e. cc), refl))

dentry_path-path_text_example :
    dentry_path 1 3 2 5 tree
      ≡ written (path_text ((99 ∷ []) ∷ (97 ∷ 98 ∷ []) ∷ []) ++ (0 ∷ [])) tree
    × (length (path_text ((99 ∷ []) ∷ (97 ∷ 98 ∷ []) ∷ []) ++ (0 ∷ [])) ≡ 5 + 1)
dentry_path-path_text_example =
    dentry_path-path_text 0 3 2 5 tree ((99 ∷ []) ∷ (97 ∷ 98 ∷ []) ∷ []) refl tree-Climbs
      (omega arith) (omega arith) (omega arith)

names-path_text_example :
    names 2 (path_text ((99 ∷ []) ∷ (97 ∷ 98 ∷ []) ∷ [])) ≡ (97 ∷ 98 ∷ []) ∷ (99 ∷ []) ∷ []
names-path_text_example =
    names-path_text 2 ((99 ∷ []) ∷ (97 ∷ 98 ∷ []) ∷ [])
      (
        record { some_char = λ e. cc; short = omega arith; plain = ((λ e. cc), tt) },
        (
          record { some_char = λ e. cc; short = omega arith; plain = ((λ e. cc), ((λ e. cc), tt)) },
          tt,
        ),
      )
      (omega arith)
