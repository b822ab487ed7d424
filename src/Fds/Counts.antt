-- ===== src/Fds/Counts.antt =====
-- The reference counters of open files (kernel/src/sys/sys_close.c, sys_dup.c, sys_dup2.c) count the
-- descriptors that lead to them.
use beeos.Prelude.{
  ℕ, zero, suc, ◌+◌, ◌≤◌, ◌<◌, ◌≡◌, ap, ◌∙◌, ◌≢◌, inl, inr, Option, none, some, List, [], ◌∷◌,
  arith, ◌==◌, if◌then◌else◌, set, length, length-set, get_elem?-set_ne, get_elem?-set_self,
  Bool-cases, Option-cases,
}
use beeos.Prelude.Int.{ℤ}
use beeos.Fds.{
  Table, Desc, File, Reply, ebadf, open_max, no_desc, fil_at, in_range, free_slot, count_up, update,
  release, close_at, close, copy_to, dup, with_open, dup_at, clear_bit, fd_cloexec, flags_at,
  dup2_at, dup2,
}

-- How many descriptors lead to the file `p`.
abbrev pub leads : ℕ → Option ℕ → ℕ
leads p none = 0
leads p (some q) = if p == q then 1 else 0

unfoldable pub count : ℕ → List Desc → ℕ
count p [] = 0
count p (d ∷ ds) = leads p d.fil + count p ds

-- The counter of a file, 0 where there is none.
abbrev pub refs : (ℕ → Option File) → ℕ → ℕ
refs files p = elim (files p) [ none ↦ 0 | some f ↦ f.ref ]

-- The table has its size, every counter is the number of descriptors of this process and of the
-- others that lead to the file, and no file is kept with a counter of 0.
pub record IsCounted (others : ℕ → ℕ) (s : Table) : Type 0 where
  pub size : length s.fds ≡ open_max
  pub counted : (p : ℕ) → refs s.files p ≡ count p s.fds + others p
  pub alive : (p : ℕ) → s.files p ≢ none → 0 < refs s.files p

count-set :
    (p i : ℕ) (ds : List Desc) (d : Desc)
    → i < length ds
    → count p (set ds i d) + leads p (fil_at ds i) ≡ count p ds + leads p d.fil
unfolding count
count-set p i [] d h = absurd (omega arith)
count-set p zero (x ∷ ds) d h = omega arith
count-set p (suc i) (x ∷ ds) d h = omega (arith, count-set p i ds d (omega arith))

-- An open descriptor is counted.
leads-le-count : (p i : ℕ) (ds : List Desc) → leads p (fil_at ds i) ≤ count p ds
unfolding count
leads-le-count p i [] = omega arith
leads-le-count p zero (x ∷ ds) = omega arith
leads-le-count p (suc i) (x ∷ ds) = omega (arith, leads-le-count p i ds)

refs-count_up :
    (files : ℕ → Option File) (p q : ℕ)
    → files p ≢ none
    → refs (count_up files p) q ≡ refs files q + leads q (some p)
unfolding update
refs-count_up files p q h = ground arith

-- The free slot that is found, counted from the start of the search.
pub free_slot-fil :
    (ds : List Desc) (i : ℕ) {n : ℕ}
    → free_slot ds i ≡ some n
    → (k : ℕ) × (n ≡ i + k) × (k < length ds) × (fil_at ds k ≡ none)
unfolding free_slot
free_slot-fil [] i e = cc
free_slot-fil (d ∷ ds) i {n} e = elim (Option-cases d.fil) [
  | inl free ↦ (0, ground arith, omega arith, free)
  | inr (p, used) ↦
      let (k, at, lt, free) = free_slot-fil ds (i + 1) (rw used at e) in
      (suc k, omega arith, omega arith, free)
]

-- The descriptor that `dup` and `dup2` write.
abbrev copied : Table → ℕ → ℕ → Desc
copied s old p = record { flags = clear_bit fd_cloexec (flags_at s.fds old); fil = some p }

-- What a release leaves of the counters.
refs-release :
    (s : Table) (p : ℕ) (f : File) (q : ℕ)
    → s.files p ≡ some f
    → 0 < f.ref
    → refs (release s p f).files q + leads q (some p) ≡ refs s.files q
unfolding release update
refs-release s p f q e pos = ground arith

fds-release : (s : Table) (p : ℕ) (f : File) → (release s p f).fds ≡ s.fds
unfolding release
fds-release s p f = ground arith

alive-release :
    (s : Table) (p : ℕ) (f : File) (q : ℕ)
    → s.files p ≡ some f
    → (s.files q ≢ none → 0 < refs s.files q)
    → (release s p f).files q ≢ none
    → 0 < refs (release s p f).files q
unfolding release update
alive-release s p f q e old h = ground arith

module _ {others : ℕ → ℕ} {s : Table} (v : IsCounted others s) where
  -- A descriptor leads to a file that is there.
  open-file : (i p : ℕ) → fil_at s.fds i ≡ some p → s.files p ≢ none
  open-file i p e gone = ground (arith, v.counted p, leads-le-count p i s.fds)

  copy_to-IsCounted :
      (old p new : ℕ)
      → s.files p ≢ none
      → new < open_max
      → fil_at s.fds new ≡ none
      → IsCounted others (copy_to s old p new)
  unfolding copy_to update
  copy_to-IsCounted old p new there lt free = record {
    size = length-set s.fds new (copied s old p) ∙ v.size;
    counted = λ q. ground (
      arith,
      refs-count_up s.files p q there,
      count-set q new s.fds (copied s old p) (omega (arith, v.size)),
      v.counted q,
    );
    alive = λ q h. ground (arith, v.alive q);
  }

  close_at-IsCounted :
      (i p : ℕ) → i < open_max → fil_at s.fds i ≡ some p → IsCounted others (close_at s i p)
  unfolding close_at
  close_at-IsCounted i p lt e = elim (Option-cases (s.files p)) [
    | inl gone ↦ absurd (open-file i p e gone)
    | inr (f, there) ↦
        let s' : Table = record s { fds = set s.fds i no_desc } in
        rw (there, close_at)
          (record {
            size = ap (λ t. length t) (fds-release s' p f) ∙ length-set s.fds i no_desc ∙ v.size;
            counted = λ q. ground (
              arith,
              fds-release s' p f,
              refs-release s' p f q there,
              v.alive p,
              v.counted q,
              count-set q i s.fds no_desc (omega (arith, v.size)),
            );
            alive = λ q h. alive-release s' p f q there (v.alive q) h;
          })
  ]

in_range-lt : (fd : ℤ) {i : ℕ} → in_range fd ≡ some i → i < open_max
in_range-lt (ℤ.pos n) e = ground arith
in_range-lt (ℤ.negsuc n) e = cc

-- What holds of EBADF and of every open descriptor holds of the call.
pub with_open-rule :
    (s : Table) (fd : ℤ) (k : ℕ → ℕ → Reply × Table) (P : Reply × Table → Type 0)
    → P (ebadf, s)
    → ((i p : ℕ) → in_range fd ≡ some i → fil_at s.fds i ≡ some p → P (k i p))
    → P (with_open s fd k)
unfolding with_open
with_open-rule s fd k P bad good = elim (Option-cases (in_range fd)) [
  | inl e ↦ rw (e, with_open) bad
  | inr (i, e) ↦ elim (Option-cases (fil_at s.fds i)) [
    | inl f ↦ rw (e, f, with_open) bad
    | inr (p, f) ↦ rw (e, f, with_open) (good i p e f)
  ]
]

pub fds-close_at : (s : Table) (i p : ℕ) → (close_at s i p).fds ≡ set s.fds i no_desc
unfolding close_at
fds-close_at s i p = elim (Option-cases (s.files p)) [
  | inl e ↦ rw (e, close_at)
  | inr (f, e) ↦ rw (e, close_at) (fds-release (record s { fds = set s.fds i no_desc }) p f)
]

-- Closing one descriptor frees it and leaves another one as it is.
pub fil_at-close_at :
    (s : Table) (i p j : ℕ) → i ≢ j → fil_at (close_at s i p).fds j ≡ fil_at s.fds j
fil_at-close_at s i p j ne = rw fds-close_at (ground (arith, get_elem?-set_ne s.fds no_desc ne))

pub fil_at-close_at_self :
    (s : Table) (i p : ℕ) → i < length s.fds → fil_at (close_at s i p).fds i ≡ none
fil_at-close_at_self s i p lt =
    rw fds-close_at (ground (arith, get_elem?-set_self s.fds i no_desc lt))

module _ {others : ℕ → ℕ} {s : Table} (v : IsCounted others s) where
  dup_at-IsCounted : (old p : ℕ) → s.files p ≢ none → IsCounted others (dup_at s old p).1
  unfolding dup_at
  dup_at-IsCounted old p there = elim (Option-cases (free_slot s.fds 0)) [
    | inl e ↦ rw (e, dup_at) v
    | inr (n, e) ↦
        let (k, at, lt, free) = free_slot-fil s.fds 0 e in
        let at' : n ≡ k = omega arith in
        rw (e, dup_at) (copy_to-IsCounted v old p n there (omega (arith, v.size)) (rw at' free))
  ]

  dup2_at-IsCounted :
      (old p new : ℕ)
      → new < open_max
      → fil_at s.fds old ≡ some p
      → IsCounted others (dup2_at s old p new).1
  unfolding dup2_at
  dup2_at-IsCounted old p new lt e = elim (Bool-cases (old == new)) [
    | inl same ↦ rw (same, dup2_at) v
    | inr other ↦
        rw (other, dup2_at)
          (elim (Option-cases (fil_at s.fds new)) [
            | inl free ↦ rw free (copy_to-IsCounted v old p new (open-file v old p e) lt free)
            | inr (q, used) ↦
                let w = close_at-IsCounted v new q lt used in
                rw used (
                  copy_to-IsCounted w old p new
                    (open-file w old p (fil_at-close_at s new q old (ground arith) ∙ e)) lt
                    (fil_at-close_at_self s new q (omega (arith, v.size))))
          ])
  ]

  -- `sys_close`, `sys_dup` and `sys_dup2` keep the table's size, every reference counter equal to
  -- the number of descriptors that lead to the file, and no file with a counter of 0, whatever
  -- numbers they are called with.
  pub calls-IsCounted :
      (fd newfd : ℤ)
      → IsCounted others (close s fd).1
        × IsCounted others (dup s fd).1
        × IsCounted others (dup2 s fd newfd).1
  unfolding close dup dup2
  calls-IsCounted fd newfd = (
    with_open-rule s fd _ (λ r. IsCounted others r.1) v
        (λ i p lt e. close_at-IsCounted v i p (in_range-lt fd lt) e),
    with_open-rule s fd _ (λ r. IsCounted others r.1) v
        (λ i p lt e. dup_at-IsCounted i p (open-file v i p e)),
    elim (Option-cases (in_range newfd)) [
      | inl e ↦ rw (e, dup2) v
      | inr (new, e) ↦
          rw (e, dup2)
            (with_open-rule s fd _ (λ r. IsCounted others r.1) v
              (λ i p lt f. dup2_at-IsCounted i p new (in_range-lt newfd e) f))
    ],
  )
