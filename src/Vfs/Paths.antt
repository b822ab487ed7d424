-- ===== src/Vfs/Paths.antt =====
-- kernel/src/fs/vfs.c: dentry_path writes the path of an entry, of which skipelem reads the names.
use beeos.Prelude.{
  ℕ, zero, suc, ◌≤◌, ◌<◌, ◌≡◌, refl, ap, ◌∙◌, ◌≢◌, Bool, true, false, none, some, List, [], ◌∷◌,
  ◌++◌, All, arith, length, leb, ◌==◌,
}
use beeos.Vfs.{skip_slashes, element, element_of, copied_name, name_max, skipelem}
use beeos.Vfs.Names.{slash}

-- A name that fits the array of `named`.
pub record IsName (n : List ℕ) : Type 0 where
  pub some_char : n ≢ []
  pub short : length n < 64
  pub plain : All (λ c. c ≢ 47) n

-- A slash in front of every name.
abbrev pub joined : List (List ℕ) → List ℕ
joined [] = []
joined (n ∷ ns) = b'/' ∷ (n ++ joined ns)

-- The names that repeated calls of `skipelem` find.
pub names : ℕ → List ℕ → List (List ℕ)
unfolding skipelem
names zero path = []
names (suc k) path = elim (skipelem path) [ none ↦ [] | some (e, rest) ↦ e.0 ∷ names k rest ]

skip_slashes-skip_slashes : (p : List ℕ) → skip_slashes (skip_slashes p) ≡ skip_slashes p
unfolding skip_slashes
skip_slashes-skip_slashes [] = refl
skip_slashes-skip_slashes (c ∷ cs) = grind (arith, skip_slashes-skip_slashes cs)

skipelem-skip_slashes : (p : List ℕ) → skipelem (skip_slashes p) ≡ skipelem p
unfolding skipelem
skipelem-skip_slashes p = ap element_of (skip_slashes-skip_slashes p)

names-skip_slashes : (k : ℕ) (p : List ℕ) → names k (skip_slashes p) ≡ names k p
unfolding names
names-skip_slashes zero p = refl
names-skip_slashes (suc k) p = rw (skipelem-skip_slashes p, names) refl

-- `element` stops at the slash behind a name.
element-name :
    (n : List ℕ) (ns : List (List ℕ))
    → All (λ c. c ≢ 47) n
    → element (n ++ joined ns) ≡ (n, joined ns)
unfolding element
element-name [] [] a = refl
element-name [] (m ∷ ns) a = refl
element-name (c ∷ cs) ns (ne, a) =
    let rest = element-name cs ns a in
    let other : (c == b'/') ≡ false = ground arith in rw (other, rest) refl

-- What `skipelem` reads off a path.
skipelem-joined :
    (n : List ℕ) (ns : List (List ℕ))
    → IsName n
    → skipelem (joined (n ∷ ns)) ≡ some ((n, true), skip_slashes (joined ns))
unfolding skipelem skip_slashes
skipelem-joined [] ns i = absurd (i.some_char refl)
skipelem-joined (c ∷ cs) ns i =
    let t = c ∷ (cs ++ joined ns) in
    let ne = i.plain.0 in
    let other : (c == b'/') ≡ false = ground arith in
    let first : skip_slashes (b'/' ∷ t) ≡ t = ground (arith, other) in
    let fits : leb name_max (length (c ∷ cs)) ≡ false = ground (arith, i.short) in
    let copied : copied_name (c ∷ cs) ≡ (c ∷ cs, true) = rw fits refl in
    ap element_of first
    ∙ ap (λ (e : List ℕ × List ℕ). some (copied_name e.0, skip_slashes e.1))
        (element-name (c ∷ cs) ns i.plain)
    ∙ ap (λ (e : List ℕ × Bool). some (e, skip_slashes (joined ns))) copied

names-step :
    (k : ℕ) (path : List ℕ) (e : List ℕ × Bool) (rest : List ℕ)
    → skipelem path ≡ some (e, rest)
    → names (suc k) path ≡ e.0 ∷ names k rest
unfolding names
names-step k path e rest h = rw (h, names) refl

pub names-joined :
    (k : ℕ) (ns : List (List ℕ)) → All IsName ns → length ns ≤ k → names k (joined ns) ≡ ns
unfolding names skipelem skip_slashes
names-joined zero [] a l = refl
names-joined (suc k) [] a l = refl
names-joined zero (n ∷ ns) a l = absurd (omega (arith, l))
names-joined (suc k) (n ∷ ns) (i, a) l =
    names-step k (joined (n ∷ ns)) (n, true) (skip_slashes (joined ns)) (skipelem-joined n ns i)
    ∙ ap (λ l'. n ∷ l') (names-skip_slashes k (joined ns) ∙ names-joined k ns a (omega (arith, l)))

pub names-slash : (k : ℕ) → names k slash ≡ []
unfolding names skipelem skip_slashes
names-slash zero = refl
names-slash (suc k) = refl
