-- ===== src/Devfs/Nodes.antt =====
-- kernel/src/fs/devfs/devfs.c: finding the nodes of devices.
use beeos.Prelude.{
  ℕ, ◌+◌, ◌≡◌, refl, sym, ap, ◌∙◌, ◌≢◌, Bool-cases, inl, inr, ◌⊎◌, true, false, Option, none, some,
  List, [], ◌∷◌, ◌++◌, All, All-both, arith, ◌==◌, if◌then◌else◌,
}
use beeos.Prelude.Int.{pos}
use beeos.Vfs.{same_name}
use beeos.Links.Rings.{Fresh}
use beeos.Vfs.Inodes.{Inode, Inodes, put_inode, inode_create, inode_init}
use beeos.Devfs.{
  Devfs, set_rdev, rdev_of, node_with, node_or_last, devfs_lookup, dev_to_inode, devfs_mknod, names,
  named_in, name_to_dev, is_device, devfs_sb_inode_alloc,
}

-- The nodes keep their devices.
node_with-frame :
    (s s' : Inodes) (dev : ℕ) (xs : List ℕ)
    → All (λ y. rdev_of s' y ≡ rdev_of s y) xs
    → node_with s' dev xs ≡ node_with s dev xs
unfolding node_with
node_with-frame s s' dev [] all = refl
node_with-frame s s' dev (x ∷ xs) (e, all) = rw (e, node_with-frame s s' dev xs all) refl

node_with-other :
    (s : Inodes) (dev : ℕ) (xs : List ℕ) (x : ℕ)
    → rdev_of s x ≢ dev
    → node_with s dev (xs ++ (x ∷ [])) ≡ node_with s dev xs
unfolding node_with
node_with-other s dev [] x ne =
    let no : (rdev_of s x == dev) ≡ false = ground (arith, ne) in rw no refl
node_with-other s dev (y ∷ ys) x ne = rw (node_with-other s dev ys x ne) refl

node_with-last :
    (s : Inodes) (dev : ℕ) (xs : List ℕ) (x : ℕ)
    → rdev_of s x ≡ dev
    → All (λ y. rdev_of s y ≢ dev) xs
    → node_with s dev (xs ++ (x ∷ [])) ≡ some x
unfolding node_with
node_with-last s dev [] x e all =
    let same : (rdev_of s x == dev) ≡ true = ground (arith, e) in rw same refl
node_with-last s dev (y ∷ ys) x e (ne, all) =
    let differ : (rdev_of s y == dev) ≡ false = ground (arith, ne) in
    rw differ (node_with-last s dev ys x e all)

-- Where `devfs_lookup` finds a node, so does `dev_to_inode`.
node_or_last-node_with :
    (s : Inodes) (dev : ℕ) (i : Option ℕ) (xs : List ℕ) (x : ℕ)
    → node_with s dev xs ≡ some x
    → (node_or_last s dev i xs ≡ some x) × (rdev_of s x ≡ dev)
unfolding node_with node_or_last
node_or_last-node_with s dev i [] x e = cc
node_or_last-node_with s dev i (y ∷ ys) x e = elim (Bool-cases (rdev_of s y == dev)) [
  | inl same ↦
      let at : some y ≡ some x = rw same at e in
      let here : y ≡ x = cc in (rw same at, rw (sym here) (ground (arith, same)))
  | inr differ ↦ rw differ (node_or_last-node_with s dev (some y) ys x (rw differ at e))
]

pub dev_to_inode-devfs_lookup :
    (name : List ℕ) (s : Devfs) (x : ℕ)
    → devfs_lookup name s ≡ some x
    → (dev_to_inode (name_to_dev name) s ≡ some x) × (rdev_of s.inodes x ≡ name_to_dev name)
unfolding dev_to_inode devfs_lookup
dev_to_inode-devfs_lookup name s x e =
    node_or_last-node_with s.inodes (name_to_dev name) none s.nodes x e

put_inode_self : (x : ℕ) (v : Inode) (s : Inodes) → (put_inode x v s).inode x ≡ v
put_inode_self x v s = let same : (x == x) ≡ true = ground arith in rw same refl

put_inode_other : (x y : ℕ) (v : Inode) (s : Inodes) → y ≢ x → (put_inode x v s).inode y ≡ s.inode y
put_inode_other x y v s ne = let differ : (y == x) ≡ false = ground (arith, ne) in rw differ refl

inode_create_other :
    (x y sb ino mode : ℕ) (s : Inodes)
    → y ≢ x
    → (inode_create (λ sb i. some x) (λ sb i a. a) sb ino mode s).1.inode y ≡ s.inode y
unfolding inode_create inode_init
inode_create_other x y sb ino mode s ne =
    let differ : (y == x) ≡ false = ground (arith, ne) in rw differ refl

-- The name stands for the device in the table.
unfoldable pub Names : List (List ℕ × ℕ) → List ℕ → ℕ → Type 0
Names [] name dev = ⊥
Names ((n, d) ∷ rest) name dev = ((n ≡ name) × (d ≡ dev)) ⊎ Names rest name dev

found_name :
    (n name : List ℕ) (d dev : ℕ) → n ≡ name → d ≡ dev → name_to_dev n ≡ d → name_to_dev name ≡ dev
found_name n name d dev e f at = ap name_to_dev (sym e) ∙ at ∙ f

-- The search for a name finds its device.
name_to_dev-Names : (name : List ℕ) (dev : ℕ) → Names names name dev → name_to_dev name ≡ dev
unfolding Names name_to_dev named_in same_name
name_to_dev-Names name dev (inl (e, f)) = found_name _ name _ dev e f refl
name_to_dev-Names name dev (inr (inl (e, f))) = found_name _ name _ dev e f refl
name_to_dev-Names name dev (inr (inr (inl (e, f)))) = found_name _ name _ dev e f refl
name_to_dev-Names name dev (inr (inr (inr (inl (e, f))))) = found_name _ name _ dev e f refl
name_to_dev-Names name dev (inr (inr (inr (inr (inl (e, f)))))) = found_name _ name _ dev e f refl
name_to_dev-Names name dev (inr (inr (inr (inr (inr (inl (e, f))))))) =
    found_name _ name _ dev e f refl
name_to_dev-Names name dev (inr (inr (inr (inr (inr (inr (inl (e, f)))))))) =
    found_name _ name _ dev e f refl
name_to_dev-Names name dev (inr (inr (inr (inr (inr (inr (inr (inl (e, f))))))))) =
    found_name _ name _ dev e f refl
name_to_dev-Names name dev (inr (inr (inr (inr (inr (inr (inr (inr (inl (e, f)))))))))) =
    found_name _ name _ dev e f refl
name_to_dev-Names name dev (inr (inr (inr (inr (inr (inr (inr (inr (inr (inl (e, f))))))))))) =
    found_name _ name _ dev e f refl
name_to_dev-Names name dev
      (inr (inr (inr (inr (inr (inr (inr (inr (inr (inr (inl (e, f)))))))))))) =
    found_name _ name _ dev e f refl
name_to_dev-Names name dev
      (inr (inr (inr (inr (inr (inr (inr (inr (inr (inr (inr (inl (e, f))))))))))))) =
    found_name _ name _ dev e f refl
name_to_dev-Names name dev
      (inr (inr (inr (inr (inr (inr (inr (inr (inr (inr (inr (inr (inl (e, f)))))))))))))) =
    found_name _ name _ dev e f refl
name_to_dev-Names name dev
      (inr (inr (inr (inr (inr (inr (inr (inr (inr (inr (inr (inr (inr x))))))))))))) =
    elim x [ ]

-- Where memory for it is found, `devfs_mknod` of a device that no node of the list has puts a node on it
-- that is found by the device's names in the table: `devfs_lookup` of a name of the table gives the new
-- node when the name is one of that device, and what it has given before when it is not.
pub devfs_lookup-devfs_mknod :
    (x sb mode dev : ℕ) (s : Devfs) (name : List ℕ) (dev' : ℕ)
    → is_device mode ≡ true
    → Fresh x s.nodes
    → All (λ y. rdev_of s.inodes y ≢ dev) s.nodes
    → Names names name dev'
    → let (r, s') = devfs_mknod (some x) sb mode dev s in
      (r ≡ pos 0) × (devfs_lookup name s' ≡ (if dev' == dev then some x else devfs_lookup name s))
unfolding devfs_mknod devfs_lookup inode_create devfs_sb_inode_alloc
devfs_lookup-devfs_mknod x sb mode dev s name dev' device fresh unused listed =
    let (r, s') = devfs_mknod (some x) sb mode dev s in
    let at = name_to_dev-Names name dev' listed in
    let made = (inode_create (λ sb i. some x) (λ sb i a. a) sb (s.ino + 1) mode s.inodes).1 in
    let entry = set_rdev dev (made.inode x) in
    let new : rdev_of s'.inodes x ≡ dev =
      rw device (ap (λ (v : Inode). v.attributes.rdev) (put_inode_self x entry made)) in
    let kept : All (λ y. rdev_of s'.inodes y ≡ rdev_of s.inodes y) s.nodes =
      All-both
        (λ y ne _. rw device (
          ap (λ (v : Inode). v.attributes.rdev)
            (put_inode_other x y entry made ne
              ∙ inode_create_other x y sb (s.ino + 1) mode s.inodes ne)))
        s.nodes fresh fresh in
    let nodes : s'.nodes ≡ s.nodes ++ (x ∷ []) = rw device refl in
    let ok : r ≡ pos 0 = refl in
    (
      ok,
      rw (at, nodes)
          (elim (Bool-cases (dev' == dev)) [
            | inl same ↦
                let e : dev' ≡ dev = ground (arith, same) in
                let none_else = All-both (λ y k ne. λ f. ne (sym k ∙ f ∙ e)) s.nodes kept unused in
                rw same (node_with-last s'.inodes dev' s.nodes x (new ∙ sym e) none_else)
            | inr differ ↦
                let ne : rdev_of s'.inodes x ≢ dev' = ground (arith, new, differ) in
                rw differ (
                  node_with-other s'.inodes dev' s.nodes x ne
                  ∙ node_with-frame s.inodes s'.inodes dev' s.nodes kept)
          ]),
    )
