-- ===== src/Fds/Offsets/Seeks.antt =====
-- Positions of open files: kernel/src/sys/sys_lseek.c, sys_read.c and sys_write.c together.
use beeos.Prelude.{
  ℕ, zero, suc, ◌+◌, ◌-◌, ◌%◌, ◌^◌, ◌≤◌, ◌<◌, ◌≡◌, refl, ◌≢◌, ◌⊎◌, ap, ◌∙◌, inl, inr, true, false,
  some, arith, leb, if◌then◌else◌, Bool-cases,
}
use beeos.Prelude.Int.{ℤ, pos, negsuc, pos_part, neg_part, sub_ℕ, ◌+ℤ◌, to_long}
use beeos.Fds.{Table, Dent, File, update}
use beeos.Fds.Offsets.{
  value, invalid, Whence, seek_set, seek_cur, seek_end, other, new_offset, set_offset, file_of,
  lseek, kind, is_stream, advance, read_result, sys_read, sys_write,
}

-- Where a position is measured from.
abbrev pub base : File → Dent → Whence → ℕ
base f d seek_set = 0
base f d seek_cur = f.off
base f d seek_end = d.size
base f d other = 0

-- A number that a `long` holds is kept.
to_long-sub_ℕ : (a b : ℕ) → a - b < 2 ^ 31 → b - a ≤ 2 ^ 31 → to_long (sub_ℕ a b) ≡ sub_ℕ a b
to_long-sub_ℕ a b hi lo = ground arith

summed : (b : ℕ) (i : ℤ) → to_long (pos b +ℤ i) ≡ to_long (sub_ℕ (b + pos_part i) (neg_part i))
summed b i = ap (λ k. to_long (sub_ℕ (b + pos_part i) k)) (omega arith)

new_offset-base :
    (f : File) (d : Dent) (offset : ℤ) (whence : Whence)
    → whence ≢ other
    → let b = base f d whence in
      b < 2 ^ 31
      → pos_part offset < 2 ^ 31
      → neg_part offset ≤ 2 ^ 31
      → b + pos_part offset - neg_part offset < 2 ^ 31
      → new_offset f d offset whence ≡ sub_ℕ (b + pos_part offset) (neg_part offset)
unfolding new_offset
new_offset-base f d (pos n) seek_set ne small hi lo fits = ground arith
new_offset-base f d (negsuc n) seek_set ne small hi lo fits = ground arith
new_offset-base f d offset seek_cur ne small hi lo fits =
    summed f.off offset
    ∙ to_long-sub_ℕ (f.off + pos_part offset) (neg_part offset) fits (omega arith)
new_offset-base f d offset seek_end ne small hi lo fits = rw (kept d.size (omega arith)) (
    summed d.size offset
    ∙ to_long-sub_ℕ (d.size + pos_part offset) (neg_part offset) fits (omega arith))
  where
    kept : (n : ℕ) → n < 2 ^ 31 → to_long (pos n) ≡ pos n
    kept n lt = ground arith
new_offset-base f d offset other ne small hi lo fits = absurd (ne refl)

-- From a base and by an offset that an `off_t` holds, with a sum that fits, `sys_lseek` moves an
-- open file to the sum and returns it when it is not negative; when it is negative the call fails
-- and changes nothing.
pub lseek-moves :
    (s : Table) (fd offset : ℤ) (whence : Whence) {p : ℕ} {f : File}
    → file_of s fd ≡ some (p, f)
    → whence ≢ other
    → let b = base f (s.dents f.dent) whence in
      let target = b + pos_part offset - neg_part offset in
      b < 2 ^ 31
      → pos_part offset < 2 ^ 31
      → neg_part offset ≤ 2 ^ 31
      → target < 2 ^ 31
      → lseek s fd offset whence ≡ (
          if leb (neg_part offset) (b + pos_part offset)
          then (
            value (pos target),
            record s { files = update s.files p (some (record f { off = target })) },
          )
          else (invalid, s))
unfolding lseek set_offset
lseek-moves s fd offset whence {p} {f} e ne small hi lo fits =
    rw (e, lseek)
      (rw (new_offset-base f (s.dents f.dent) offset whence ne small hi lo fits) (ground arith))

-- The position of an open file can be asked for.
tell :
    (s : Table) (fd : ℤ) {p : ℕ} {f : File}
    → file_of s fd ≡ some (p, f)
    → f.off < 2 ^ 31
    → (lseek s fd (pos 0) seek_cur).0 ≡ value (pos f.off)
unfolding lseek new_offset set_offset
tell s fd {p} {f} e small = rw (e, lseek) (ground arith)

-- A file that is replaced is the one that its descriptors lead to.
file_of-update :
    (s : Table) (fd : ℤ) {p : ℕ} {f : File} (g : File)
    → file_of s fd ≡ some (p, f)
    → file_of (record s { files = update s.files p (some g) }) fd ≡ some (p, g)
unfolding update
file_of-update s (pos i) {p} {f} g e = ground arith
file_of-update s (negsuc n) {p} {f} g e = cc

file_of-advance :
    (s : Table) (fd : ℤ) {p : ℕ} {f : File} (r : ℤ) {n : ℕ} {t : Table}
    → file_of s fd ≡ some (p, f)
    → f.off + n < 2 ^ 31
    → advance s p f r ≡ (value (pos n), t)
    → file_of t fd ≡ some (p, record f { off = f.off + n })
unfolding advance
file_of-advance s fd {p} {f} (pos zero) {n} {t} e small h =
    let k : n ≡ 0 = cc in
    let u : t ≡ s = cc in rw (u, k) (e ∙ ap (λ o. some (p, record f { off = o })) (omega arith))
file_of-advance s fd {p} {f} (pos (suc m)) {n} {t} e small h =
    let k : suc m ≡ n = cc in
    let fits : (f.off + n) % 2 ^ 32 ≡ f.off + n = omega arith in
    let u : t
        ≡ record s { files = update s.files p (some (record f { off = (f.off + n) % 2 ^ 32 })) } =
      ground arith in
    rw u (rw fits (file_of-update s fd (record f { off = f.off + n }) e))
file_of-advance s fd (negsuc m) e small h = cc

module _ (dirent_size : ℕ) (transfer : File → ℤ) (readdir : File → ℕ → ℤ) where
  -- Where a read or a write of `n` bytes has left an open file, below 2 ^ 31, `sys_lseek` tells a
  -- position that is `n` further than before it.
  pub lseek-sys_read :
      (s : Table) (fd : ℤ) {p : ℕ} {f : File} {n : ℕ} {t : Table}
      → file_of s fd ≡ some (p, f)
      → f.off + n < 2 ^ 31
      → (sys_read dirent_size transfer readdir s fd ≡ (value (pos n), t))
        ⊎ (sys_write transfer s fd ≡ (value (pos n), t))
      → (lseek t fd (pos 0) seek_cur).0 ≡ value (pos (f.off + n))
  unfolding sys_read sys_write
  lseek-sys_read s fd {p} {f} {n} {t} e small h =
      let (r, moved) : (r : ℤ) × (advance s p f r ≡ (value (pos n), t)) = elim h [
        | inl a ↦ (
          read_result dirent_size transfer readdir f (s.dents f.dent).mode,
          rw (e, sys_read) at a,
        )
        | inr b ↦ (
          transfer f,
          elim (Bool-cases (is_stream (kind (s.dents f.dent).mode))) [
            | inl k ↦ streamed k b
            | inr k ↦ absurd (dropped k b)
          ],
        )
      ] in
      tell t fd (file_of-advance s fd r e small moved) small
    where
      streamed :
          is_stream (kind (s.dents f.dent).mode) ≡ true
          → sys_write transfer s fd ≡ (value (pos n), t)
          → advance s p f (transfer f) ≡ (value (pos n), t)
      streamed k b = let b' = rw (e, sys_write) at b in rw k at b'

      dropped :
          is_stream (kind (s.dents f.dent).mode) ≡ false
          → sys_write transfer s fd ≢ (value (pos n), t)
      dropped k b = let b' = rw (e, sys_write) at b in let b'' = rw k at b' in ground arith
