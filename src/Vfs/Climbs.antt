-- ===== src/Vfs/Climbs.antt =====
-- kernel/src/fs/vfs.c: dentry_path climbs from an entry to the root and writes the names it passes.
use beeos.Prelude.{
  ℕ, zero, suc, ◌+◌, ◌-◌, ◌≤◌, ◌<◌, ◌≡◌, refl, ◌∙◌, ◌≢◌, true, false, inl, inr, Bool-cases, some,
  List, [], ◌∷◌, ◌++◌, All, arith, length, length-append, ltb, ◌==◌, if◌then◌else◌,
}
use beeos.Vfs.{Vfs, same_name, follow_up, mounted_at}
use beeos.Vfs.Names.{slash, up_from, written, too_long, path_loop, dentry_path}
use beeos.Vfs.Paths.{IsName, joined, names, names-joined, names-slash}

-- The names from the entry `d` up to the root, without the root's.
unfoldable pub Climbs : Vfs → ℕ → List (List ℕ) → Type 0
Climbs s d [] = d ≡ (s.dentry d).parent
Climbs s d (n ∷ ns) =
    ((s.dentry d).name ≡ n) × (d ≢ (s.dentry d).parent) × Climbs s (s.dentry d).parent ns

-- How many bytes they take, each with its slash.
abbrev pub size_of : List (List ℕ) → ℕ
size_of [] = 0
size_of (n ∷ ns) = length n + 1 + size_of ns

-- The names in front of `text`.
abbrev written_up : List (List ℕ) → List ℕ → List ℕ
written_up [] text = text
written_up (n ∷ ns) text = written_up ns (b'/' ∷ (n ++ text))

-- The names from the root down.
abbrev pub onto : List (List ℕ) → List (List ℕ) → List (List ℕ)
onto [] acc = acc
onto (n ∷ ns) acc = onto ns (n ∷ acc)

written_up-joined : (ns acc : List (List ℕ)) → written_up ns (joined acc) ≡ joined (onto ns acc)
written_up-joined [] acc = refl
written_up-joined (n ∷ ns) acc = written_up-joined ns (n ∷ acc)

length-joined : (ns : List (List ℕ)) → length (joined ns) ≡ size_of ns
length-joined [] = refl
length-joined (n ∷ ns) = omega (arith, length-append n (joined ns), length-joined ns)

size_of-onto : (ns acc : List (List ℕ)) → size_of (onto ns acc) ≡ size_of ns + size_of acc
size_of-onto [] acc = omega arith
size_of-onto (n ∷ ns) acc = omega (arith, size_of-onto ns (n ∷ acc))

length-onto : (ns acc : List (List ℕ)) → length (onto ns acc) ≡ length ns + length acc
length-onto [] acc = omega arith
length-onto (n ∷ ns) acc = omega (arith, length-onto ns (n ∷ acc))

All-onto : (ns acc : List (List ℕ)) → All IsName ns → All IsName acc → All IsName (onto ns acc)
All-onto [] acc a b = b
All-onto (n ∷ ns) acc (i, a) b = All-onto ns (n ∷ acc) a (i, b)

pub up_from-unmounted :
    (turns d : ℕ) (s : Vfs) → s.mounts ≡ [] → up_from (suc turns) d s ≡ some (d, s)
unfolding up_from follow_up mounted_at
up_from-unmounted turns d s e = elim (Bool-cases (same_name (s.dentry d).name slash)) [
  | inl is_root ↦ rw (is_root, e) refl
  | inr is_other ↦ rw is_other refl
]

abbrev with_slash : ℕ → ℕ → List ℕ → List ℕ
with_slash j size text = if j == size then b'/' ∷ text else text

-- One round of the loop where nothing is mounted.
path_loop-round :
    (turns fuel size d j : ℕ) (text : List ℕ) (s : Vfs)
    → s.mounts ≡ []
    → let name = (s.dentry d).name in
      let parent = (s.dentry d).parent in
      path_loop (suc turns) (suc fuel) size d j text s ≡ (
        if d == parent
        then written (with_slash j size text ++ (0 ∷ [])) s
        else if ltb (length name) j
        then path_loop (suc turns) fuel size parent (j - length name - 1) (b'/' ∷ (name ++ text)) s
        else too_long s)
unfolding path_loop
path_loop-round turns fuel size d j text s m = rw (up_from-unmounted turns d s m, path_loop) refl

path_loop-written :
    (turns fuel size d j : ℕ) (text : List ℕ) (s : Vfs) (ns : List (List ℕ))
    → s.mounts ≡ []
    → Climbs s d ns
    → length ns < fuel
    → size_of ns ≤ j
    → path_loop (suc turns) fuel size d j text s
      ≡ written (with_slash (j - size_of ns) size (written_up ns text) ++ (0 ∷ [])) s
unfolding Climbs
path_loop-written turns zero size d j text s ns m c l fits = absurd (omega (arith, l))
path_loop-written turns (suc f) size d j text s [] m c l fits =
    let round = path_loop-round turns f size d j text s m in
    let stop : (d == (s.dentry d).parent) ≡ true = ground (arith, c) in
    let at : j - 0 ≡ j = omega arith in round ∙ (rw (stop, at) refl)
path_loop-written turns (suc f) size d j text s (n ∷ ns) m (e, ne, c) l fits =
    let round = path_loop-round turns f size d j text s m in
    let on : (d == (s.dentry d).parent) ≡ false = ground (arith, ne) in
    let room : ltb (length n) j ≡ true = ground (arith, fits) in
    let rest =
      path_loop-written turns f size (s.dentry d).parent (j - length n - 1) (b'/' ∷ (n ++ text)) s
        ns m c (omega (arith, l)) (omega (arith, fits)) in
    let left : j - length n - 1 - size_of ns ≡ j - size_of (n ∷ ns) = omega arith in
    round ∙ (rw (on, e, room, rest, left) refl)

path_loop-too_long :
    (turns fuel size d j : ℕ) (text : List ℕ) (s : Vfs) (ns : List (List ℕ))
    → s.mounts ≡ []
    → Climbs s d ns
    → length ns < fuel
    → j < size_of ns
    → path_loop (suc turns) fuel size d j text s ≡ too_long s
unfolding Climbs
path_loop-too_long turns zero size d j text s ns m c l fits = absurd (omega (arith, l))
path_loop-too_long turns (suc f) size d j text s [] m c l fits = absurd (omega (arith, fits))
path_loop-too_long turns (suc f) size d j text s (n ∷ ns) m (e, ne, c) l fits =
    let round = path_loop-round turns f size d j text s m in
    let on : (d == (s.dentry d).parent) ≡ false = ground (arith, ne) in
    elim (Bool-cases (ltb (length n) j)) [
      | inl room ↦
          let rest =
            path_loop-too_long turns f size (s.dentry d).parent (j - length n - 1)
              (b'/' ∷ (n ++ text)) s ns m c (omega (arith, l)) (ground (arith, room, fits)) in
          round ∙ (rw (on, e, room, rest) refl)
      | inr full ↦ round ∙ (rw (on, e, full) refl)
    ]

-- The text of an entry's path: a slash in front of every name, or one slash for the root.
abbrev pub path_text : List (List ℕ) → List ℕ
path_text [] = slash
path_text (n ∷ ns) = joined (onto (n ∷ ns) [])

abbrev pub text_size : List (List ℕ) → ℕ
text_size [] = 1
text_size (n ∷ ns) = size_of (n ∷ ns)

-- With fewer names above an entry than rounds, no mounts and a buffer of at least one byte that
-- holds the names with their slashes, `dentry_path` writes the path of the entry and a 0 behind
-- it, which falls behind a buffer that the names fill: one byte for every character and every
-- slash of the names, or one for the root, and one more.
pub dentry_path-path_text :
    (turns fuel d size : ℕ) (s : Vfs) (ns : List (List ℕ))
    → s.mounts ≡ []
    → Climbs s d ns
    → length ns < fuel
    → size_of ns ≤ size
    → 0 < size
    → dentry_path (suc turns) fuel d size s ≡ written (path_text ns ++ (0 ∷ [])) s
      × (length (path_text ns ++ (0 ∷ [])) ≡ text_size ns + 1)
unfolding dentry_path
dentry_path-path_text turns fuel d size s [] m c l fits positive =
    let run = path_loop-written turns fuel size d size [] s [] m c l fits in
    let full : (size - 0 == size) ≡ true = ground arith in (rw full at run, refl)
dentry_path-path_text turns fuel d size s (n ∷ ns) m c l fits positive =
    let run = path_loop-written turns fuel size d size [] s (n ∷ ns) m c l fits in
    let rest : (size - size_of (n ∷ ns) == size) ≡ false = ground (arith, fits, positive) in
    let text = written_up-joined (n ∷ ns) [] in
    (
      rw text at (rw rest at run),
      omega (
        arith,
        length-append (joined (onto (n ∷ ns) [])) (0 ∷ []),
        length-joined (onto (n ∷ ns) []),
        size_of-onto (n ∷ ns) [],
      ),
    )

-- With fewer names above an entry than rounds, no mounts, and less room than the names take with
-- their slashes, `dentry_path` fails.
pub dentry_path-too_long :
    (turns fuel d size : ℕ) (s : Vfs) (ns : List (List ℕ))
    → s.mounts ≡ []
    → Climbs s d ns
    → length ns < fuel
    → size < size_of ns
    → dentry_path (suc turns) fuel d size s ≡ too_long s
unfolding dentry_path
dentry_path-too_long turns fuel d size s ns m c l over =
    path_loop-too_long turns fuel size d size [] s ns m c l over

-- `skipelem`, called for as long as it finds a name and at least as often as there are names, reads off the path of an entry that
-- `dentry_path` writes the names from the root down, where each has a character, no slash, and fewer
-- than 64 characters.
pub names-path_text :
    (k : ℕ) (ns : List (List ℕ))
    → All IsName ns
    → length ns ≤ k
    → names k (path_text ns) ≡ onto ns []
names-path_text k [] a l = names-slash k
names-path_text k (n ∷ ns) a l =
    names-joined k (onto (n ∷ ns) []) (All-onto (n ∷ ns) [] a tt)
      (omega (arith, l, length-onto (n ∷ ns) []))
