-- ===== src/Vfs/Names/Ends.antt =====
-- kernel/src/fs/vfs.c: `named` ends.
use beeos.Prelude.{ℕ, suc, ◌≡◌, Bool, Option, none, some, List, []}
use beeos.Vfs.{Vfs}
use beeos.Vfs.Names.{named_step, Named, missing, named_loop}

abbrev rest_of : List ℕ → Option ((List ℕ × Bool) × List ℕ) → List ℕ
rest_of other none = other
rest_of other (some (e, rest)) = rest

module _ (lookup : ℕ → List ℕ → Option ℕ) (kmalloc : Vfs → Option ℕ) where
  record Stepped (turns : ℕ) (name : List ℕ) (d : ℕ) (s : Vfs) : Type 0 where
    next : Option ℕ
    result : Vfs
    steps : named_step lookup kmalloc (suc turns) name d s ≡ some (next, result)
    mounts : result.mounts ≡ []

  abbrev named_next : ℕ → ℕ → List ℕ → Option ℕ → Vfs → Named
  named_next turns n rest none s = missing s
  named_next turns n rest (some e) s = named_loop lookup kmalloc turns n rest e s
