-- ===== src/Fds/Flags.antt =====
-- The close-on-exec mark: kernel/src/sys/sys_open.c sets O_CLOEXEC in a descriptor's flags and
-- kernel/src/sys/sys_execve.c tests it; kernel/src/sys/sys_dup.c and sys_dup2.c clear FD_CLOEXEC.
use native.Mathlib.Decide.{ℕ_discrete}
use beeos.Prelude.{
  ℕ, zero, suc, ◌+◌, ◌<◌, ◌≡◌, refl, ◌≢◌, ap, ◌∙◌, inl, inr, Bool, not, ◌&&◌, Option, none, some,
  arith, leb, ◌==◌, if◌then◌else◌, length, Option-cases, get_elem?-set_self, get_elem?-set_ne,
  length-set, ltb, ◌≤◌, Bool-cases,
}
use beeos.Prelude.Int.{pos}
use beeos.Fds.Counts.{
  with_open-rule, free_slot-fil, fds-close_at, fil_at-close_at, fil_at-close_at_self,
}
use beeos.Fds.{
  Table, ret, open_max, o_cloexec, fd_cloexec, keep_bit, clear_bit, flags_at, fil_at, close_at,
  copy_to, dup, dup_at, no_desc, free_slot,
}

-- The loop of `sys_execve` over the descriptors: close those that are marked.
pub close_marked : ℕ → ℕ → Table → Table
close_marked zero i s = s
close_marked (suc n) i s = close_marked n (i + 1) (elim (fil_at s.fds i) [
  | none ↦ s
  | some p ↦ if keep_bit o_cloexec (flags_at s.fds i) == 0 then s else close_at s i p
])

-- Clearing the lowest bit leaves the bit that marks a descriptor.
keep-clear :
    (flags : ℕ) → keep_bit o_cloexec (clear_bit fd_cloexec flags) ≡ keep_bit o_cloexec flags
keep-clear flags = omega arith

flags-copy_to :
    (s : Table) (old p new : ℕ)
    → new < length s.fds
    → flags_at (copy_to s old p new).fds new ≡ clear_bit fd_cloexec (flags_at s.fds old)
unfolding copy_to
flags-copy_to s old p new lt = ground (
  arith,
  get_elem?-set_self s.fds new
      (record { flags = clear_bit fd_cloexec (flags_at s.fds old); fil = some p }) lt,
)

-- The copies made by `dup_at` carry the mark of the descriptor that they copy.
keep_bit-dup_at :
    (s : Table) (old p : ℕ) {n : ℕ} {t : Table}
    → dup_at s old p ≡ (ret n, t)
    → keep_bit o_cloexec (flags_at t.fds n) ≡ keep_bit o_cloexec (flags_at s.fds old)
unfolding dup_at
keep_bit-dup_at s old p {n} {t} e = elim (Option-cases (free_slot s.fds 0)) [
  | inl f ↦ ground arith
  | inr (m, f) ↦
      let (k, at, lt, free) = free_slot-fil s.fds 0 f in
      let same : n ≡ m = ground arith in
      let copy : t ≡ copy_to s old p m = ground arith in
      rw (copy, same)
        (ap (λ k. keep_bit o_cloexec k) (flags-copy_to s old p m (omega arith))
          ∙ keep-clear (flags_at s.fds old))
]

-- A descriptor made by `dup` is marked close-on-exec exactly when the one that it copies is.
pub keep_bit-dup :
    (s : Table) (fd : ℕ) {n : ℕ} {t : Table}
    → dup s (pos fd) ≡ (ret n, t)
    → keep_bit o_cloexec (flags_at t.fds n) ≡ keep_bit o_cloexec (flags_at s.fds fd)
unfolding dup
keep_bit-dup s fd {n} {t} =
    with_open-rule s (pos fd) (dup_at s)
      (λ r.
        r ≡ (ret n, t)
        → keep_bit o_cloexec (flags_at t.fds n) ≡ keep_bit o_cloexec (flags_at s.fds fd))
      (λ e. cc)
      λ i p at e h. let same : i ≡ fd = ground arith in rw same at (keep_bit-dup_at s i p h)

-- Whether `sys_execve` closes the descriptor.
abbrev pub marked : Table → ℕ → Bool
marked s j = not (keep_bit o_cloexec (flags_at s.fds j) == 0)

flags-close_at :
    (s : Table) (i p j : ℕ) → i ≢ j → flags_at (close_at s i p).fds j ≡ flags_at s.fds j
flags-close_at s i p j ne = rw fds-close_at (ground (arith, get_elem?-set_ne s.fds no_desc ne))

-- One round closes the descriptor that it looks at, if it is marked.
abbrev round : Table → ℕ → Table
round s i = elim (fil_at s.fds i) [
  | none ↦ s
  | some p ↦ if keep_bit o_cloexec (flags_at s.fds i) == 0 then s else close_at s i p
]

round_other :
    (s : Table) (i j : ℕ)
    → i ≢ j
    → (fil_at (round s i).fds j ≡ fil_at s.fds j) × (marked (round s i) j ≡ marked s j)
round_other s i j ne = elim (Option-cases (fil_at s.fds i)) [
  | inl e ↦ rw (e, round) (refl, refl)
  | inr (p, e) ↦ elim (Bool-cases (keep_bit o_cloexec (flags_at s.fds i) == 0)) [
    | inl m ↦ rw (e, round) (rw m (refl, refl))
    | inr m ↦ rw (e, round) (rw m (fil_at-close_at s i p j ne, rw (flags-close_at s i p j ne) refl))
  ]
]

round_self :
    (s : Table) (i : ℕ)
    → i < length s.fds
    → fil_at (round s i).fds i ≡ (if marked s i then none else fil_at s.fds i)
round_self s i lt = elim (Option-cases (fil_at s.fds i)) [
  | inl e ↦ ground arith
  | inr (p, e) ↦ ground (arith, fil_at-close_at_self s i p lt)
]

length-round : (s : Table) (i : ℕ) → length (round s i).fds ≡ length s.fds
length-round s i = elim (Option-cases (fil_at s.fds i)) [
  | inl e ↦ ground arith
  | inr (p, e) ↦ ground (arith, ap (λ t. length t) (fds-close_at s i p), length-set s.fds i no_desc)
]

-- What a round does to the rule for the descriptors behind it.
round_step :
    (s : Table) (i n j : ℕ)
    → i < length s.fds
    → (if (leb (i + 1) j && ltb j (i + 1 + n)) && marked (round s i) j
        then none
        else fil_at (round s i).fds j)
      ≡ (if (leb i j && ltb j (i + suc n)) && marked s j then none else fil_at s.fds j)
round_step s i n j lt = elim (ℕ_discrete i j) [
  | yes same ↦
      rw (← same) (same_case (marked (round s i) i) (fil_at (round s i).fds i) (round_self s i lt))
  | no other ↦ rw ((round_other s i j other).0, (round_other s i j other).1) (ground arith)
]
  where
    same_case :
        (m : Bool) (f : Option ℕ)
        → f ≡ (if marked s i then none else fil_at s.fds i)
        → (if (leb (i + 1) i && ltb i (i + 1 + n)) && m then none else f)
          ≡ (if (leb i i && ltb i (i + suc n)) && marked s i then none else fil_at s.fds i)
    same_case m f e = ground arith

-- After the descriptors from `i` on, `n` of them.
close_marked-fil_at :
    (n i : ℕ) (s : Table) (j : ℕ)
    → i + n ≤ length s.fds
    → fil_at (close_marked n i s).fds j
      ≡ (if (leb i j && ltb j (i + n)) && marked s j then none else fil_at s.fds j)
unfolding close_marked
close_marked-fil_at zero i s j le = ground arith
close_marked-fil_at (suc n) i s j le =
    close_marked-fil_at n (i + 1) (round s i) j (omega (arith, length-round s i))
    ∙ round_step s i n j (omega arith)

-- When a program is started, `sys_execve` closes exactly the descriptors that are marked.
pub close_marked-fil :
    (s : Table) (j : ℕ)
    → length s.fds ≡ open_max
    → j < open_max
    → fil_at (close_marked open_max 0 s).fds j ≡ (if marked s j then none else fil_at s.fds j)
close_marked-fil s j size lt = close_marked-fil_at open_max 0 s j (omega arith) ∙ ground arith
