-- ===== src/Tty/Lines.antt =====
-- kernel/src/driver/tty.c: the buffer of a terminal is a line that can be edited, and a read takes its
-- characters off the front.
use beeos.Prelude.{
  ℕ, zero, suc, ◌+◌, ◌-◌, ◌≤◌, ◌<◌, ◌≡◌, ◌≢◌, refl, ap, sym, ◌∙◌, inl, inr, true, false, ◌&&◌, List,
  [], ◌∷◌, ◌++◌, append-nil, append_assoc, arith, leb, ltb, ◌==◌, if◌then◌else◌, length,
  length-append, take, Bool-cases,
}
use beeos.Tty.{Tty, max_canon, adjusted, entered, update_line, read_wait, got, read_chars, tty_read}

-- The characters at `n` indices from `i` on.
unfoldable pub span : ℕ → ℕ → (ℕ → ℕ) → List ℕ
span zero i buf = []
span (suc n) i buf = buf i ∷ span n (i + 1) buf

-- The characters that were typed and not yet read.
abbrev pub pending : Tty → List ℕ
pending t = span (t.wpos - t.rpos) t.rpos t.rbuf

pub record IsValid (t : Tty) : Type 0 where
  pub ordered : t.rpos ≤ t.wpos
  pub inside : t.wpos ≤ max_canon

pub drop_last : List ℕ → List ℕ
drop_last [] = []
drop_last (c ∷ []) = []
drop_last (c ∷ d ∷ cs) = c ∷ drop_last (d ∷ cs)

-- What a key does to a line.
pub edit : List ℕ → ℕ → List ℕ
edit line c = if c == 8 then drop_last line else line ++ (c ∷ [])

drop_last-span : (n i : ℕ) (buf : ℕ → ℕ) → drop_last (span (suc n) i buf) ≡ span n i buf
unfolding drop_last span
drop_last-span zero i buf = refl
drop_last-span (suc n) i buf = ap (λ l. buf i ∷ l) (drop_last-span n (i + 1) buf)

span_same :
    (n i : ℕ) (buf buf' : ℕ → ℕ)
    → ((q : ℕ) → q < i + n → buf' q ≡ buf q)
    → span n i buf' ≡ span n i buf
unfolding span
span_same zero i buf buf' h = refl
span_same (suc n) i buf buf' h =
    rw (h i (omega arith))
      (ap (λ l. buf i ∷ l) (span_same n (i + 1) buf buf' (λ q lt. h q (omega arith))))

span_snoc : (n i : ℕ) (buf : ℕ → ℕ) → span (suc n) i buf ≡ span n i buf ++ (buf (i + n) ∷ [])
unfolding span
span_snoc zero i buf = ap (λ k. buf k ∷ []) (omega arith)
span_snoc (suc n) i buf =
    let at : i + 1 + n ≡ i + suc n = omega arith in
    ap (λ l. buf i ∷ l) (span_snoc n (i + 1) buf ∙ ap (λ k. span n (i + 1) buf ++ (buf k ∷ [])) at)

-- A key that finds room edits the line.
entered-edit :
    (t : Tty) (c : ℕ)
    → t.rpos ≤ t.wpos
    → t.wpos < max_canon
    → IsValid (entered t c) × (pending (entered t c) ≡ edit (pending t) c)
unfolding entered edit drop_last span
entered-edit t c ordered room = elim (Bool-cases (c == 8)) [
  | inl rubout ↦ elim (Bool-cases (ltb t.rpos t.wpos)) [
    | inl some_key ↦
        rw (rubout, some_key, entered)
          (
            record { ordered = ground arith; inside = omega arith },
            rubbed (t.wpos - 1 - t.rpos) (t.wpos - t.rpos) (ground arith),
          )
    | inr empty ↦
        rw (rubout, empty, entered)
          (
            record { ordered = ordered; inside = omega arith },
            nothing (t.wpos - t.rpos) (ground arith),
          )
  ]
  | inr letter ↦
      rw (letter, entered)
        (
          record { ordered = omega arith; inside = omega arith },
          written (t.wpos - t.rpos) (t.wpos + 1 - t.rpos) (omega arith) (omega arith),
        )
]
  where
    rubbed : (n m : ℕ) → m ≡ suc n → span n t.rpos t.rbuf ≡ drop_last (span m t.rpos t.rbuf)
    rubbed n m e = rw e (sym (drop_last-span n t.rpos t.rbuf))

    nothing : (n : ℕ) → n ≡ 0 → span n t.rpos t.rbuf ≡ drop_last (span n t.rpos t.rbuf)
    nothing n e = rw e refl

    buf' : ℕ → ℕ
    buf' q = if q == t.wpos then c else t.rbuf q

    written :
        (n m : ℕ)
        → m ≡ suc n
        → t.rpos + n ≡ t.wpos
        → span m t.rpos buf' ≡ span n t.rpos t.rbuf ++ (c ∷ [])
    written n m e at =
        let here : buf' (t.rpos + n) ≡ c = ground arith in
        rw e (
          span_snoc n t.rpos buf'
          ∙ ap (λ k. span n t.rpos buf' ++ (k ∷ [])) here
          ∙ ap (λ l. l ++ (c ∷ [])) (span_same n t.rpos t.rbuf buf' (λ q lt. ground arith)))

-- The line that the next key is typed to: from a full buffer the last character is lost.
abbrev pub line : Tty → List ℕ
line t = if leb max_canon t.wpos then drop_last (pending t) else pending t

adjusted-line :
    (t : Tty)
    → IsValid t
    → ((adjusted t).rpos ≤ (adjusted t).wpos)
      × ((adjusted t).wpos < max_canon)
      × (pending (adjusted t) ≡ line t)
unfolding adjusted span drop_last
adjusted-line t v = elim (Bool-cases (leb max_canon t.wpos)) [
  | inr room ↦
      let ordered : ltb t.wpos t.rpos ≡ false = ground arith in
      rw (room, adjusted) (rw ordered (v.ordered, ground arith, refl))
  | inl full ↦ elim (Bool-cases (ltb (max_canon - 1) t.rpos)) [
    | inl all_read ↦
        rw (full, all_read, adjusted)
          (omega arith, omega arith, all_gone (t.wpos - t.rpos) (ground arith))
    | inr some_left ↦
        rw (full, some_left, adjusted)
          (
            ground arith,
            omega arith,
            one_lost (t.wpos - t.rpos) (max_canon - 1 - t.rpos) (ground arith),
          )
  ]
]
  where
    all_gone : (n : ℕ) → n ≡ 0 → [] ≡ drop_last (span n t.rpos t.rbuf)
    all_gone n e = rw e refl

    one_lost : (n m : ℕ) → n ≡ suc m → span m t.rpos t.rbuf ≡ drop_last (span n t.rpos t.rbuf)
    one_lost n m e = rw e (sym (drop_last-span m t.rpos t.rbuf))

-- A key that is pressed edits the line of what was typed and not yet read: a rubout takes off
-- its last character, another key is put behind it. A full buffer loses its last character
-- before, so that a rubout then takes off two.
pub update_line-edit :
    (t : Tty) (c : ℕ)
    → IsValid t
    → IsValid (update_line t c) × (pending (update_line t c) ≡ edit (line t) c)
unfolding update_line
update_line-edit t c v =
    let (ordered, room, same) = adjusted-line t v in
    let (valid, edited) = entered-edit (adjusted t) c ordered room in
    (valid, edited ∙ ap (λ l. edit l c) same)

-- The terminal when `bytes` were taken off its front.
abbrev pub read_off : Tty → List ℕ → Tty
read_off t bytes = record t { rpos = t.rpos + length bytes }

read_off_nil : (t : Tty) (out : List ℕ) → got out t ≡ got (out ++ []) (read_off t [])
read_off_nil t out = ground (arith, append-nil out)

-- The loop once a character was read.
read_chars-more :
    (n m me : ℕ) (t : Tty) (out : List ℕ)
    → t.wpos ≡ t.rpos + m
    → 0 < length out
    → let bytes = take n (span m t.rpos t.rbuf) in
      read_chars n me t out ≡ got (out ++ bytes) (read_off t bytes)
unfolding read_chars read_wait span
read_chars-more zero m me t out e some_read = read_off_nil t out
read_chars-more (suc n) zero me t out e some_read =
    let idle : ltb t.rpos t.wpos ≡ false = ground arith in
    let later : (length out == 0) ≡ false = ground arith in
    rw (idle, later, read_chars) (read_off_nil t out)
read_chars-more (suc n) (suc m) me t out e some_read =
    let busy : ltb t.rpos t.wpos ≡ true = ground arith in
    let c : ℕ = t.rbuf t.rpos in
    let later : ((c == 0) && (length out == 0)) ≡ false = ground arith in
    let bytes = take n (span m (t.rpos + 1) t.rbuf) in
    let more =
      read_chars-more n m me (record t { rpos = t.rpos + 1 }) (out ++ (c ∷ [])) (omega arith)
        (omega (arith, length-append out (c ∷ []))) in
    rw (busy, later, read_chars)
      (more
        ∙ ap (λ l. got l (record t { rpos = t.rpos + 1 + length bytes }))
            (append_assoc out (c ∷ []) bytes)
        ∙ ap (λ k. got (out ++ (c ∷ bytes)) (record t { rpos = k })) (omega arith))

-- A read of a terminal with typed characters, of which the first is not 0, returns as many as it
-- asks for, or all of them, in their order, and takes them off the front.
pub tty_read-pending :
    (t : Tty) (me size : ℕ)
    → t.rpos < t.wpos
    → t.rbuf t.rpos ≢ 0
    → 0 < size
    → let bytes = take size (pending t) in tty_read t me size ≡ got bytes (read_off t bytes)
unfolding tty_read read_chars read_wait span
tty_read-pending t me zero busy ne some_size = absurd (omega arith)
tty_read-pending t me (suc n) busy ne some_size =
    of_length (t.wpos - t.rpos - 1) (t.wpos - t.rpos) (omega arith) (omega arith)
  where
    b : ltb t.rpos t.wpos ≡ true
    b = ground arith

    z : (t.rbuf t.rpos == 0) ≡ false
    z = ground arith

    of_length :
        (m k : ℕ)
        → k ≡ suc m
        → t.wpos ≡ t.rpos + 1 + m
        → let bytes = take (suc n) (span k t.rpos t.rbuf) in
          read_chars (suc n) me t [] ≡ got bytes (read_off t bytes)
    of_length m k e at =
        let bytes = take n (span m (t.rpos + 1) t.rbuf) in
        let more =
          read_chars-more n m me (record t { rpos = t.rpos + 1 }) (t.rbuf t.rpos ∷ []) at
            (omega arith) in
        rw e (
          rw (b, z, read_chars)
            (more ∙ ap (λ k. got (t.rbuf t.rpos ∷ bytes) (record t { rpos = k })) (omega arith)))
