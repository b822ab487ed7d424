-- ===== src/Pipe/Writes.antt =====
-- Whole calls of `pipe_write` (kernel/src/ipc/pipe.c), from entry to the point where they return
-- or sleep.
use beeos.Prelude.{
  ℕ, zero, suc, ◌+◌, ◌-◌, ◌<◌, ◌≡◌, refl, ap, ◌∙◌, ◌≢◌, inl, inr, true, false, List, [], ◌∷◌, ◌++◌,
  append_assoc, arith, ◌==◌, length, take, drop, Bool-cases, take-append-drop, length-drop,
}
use beeos.Pipe.{
  Pipe, Writing, put, broken, stalled, no_fuel, write_done, write_blocks, write_loop, write,
  write_wakes, is_full, write_span, write_chunk,
}
use beeos.Pipe.Fifo.{
  IsValid, contents, write_chunk-contents, write_chunk-IsValid, write_span_bounds,
}

-- Of the bytes that were to follow `q`, all but `src` stand in the pipe behind `q`.
pub record Sent (all : List ℕ) (ref : ℕ) (src : List ℕ) (p : Pipe) : Type 0 where
  pub bytes : contents p ++ src ≡ all
  pub valid : IsValid p
  pub refs : p.ref ≡ ref

-- What a call has done when it stops; `all` is what the pipe would hold with every byte written.
abbrev pub Writes : List ℕ → ℕ → ℕ → Writing → Type 0
Writes all ref count (put n p) = Sent all ref [] p × (n ≡ count)
Writes all ref count (broken p) =
    (src : List ℕ) × Sent all ref src p × (0 < length src) × (is_full p ≡ true) × (ref ≡ 1)
Writes all ref count (stalled n src p) =
    Sent all ref src p
    × (n ≡ count)
    × (0 < length src)
    × (is_full p ≡ true)
    × (ref ≢ 1)
    × (0 < p.queued_writers)
Writes all ref count no_fuel = ⊥

shrinks :
    (src : List ℕ) (p : Pipe) (fuel : ℕ)
    → IsValid p
    → is_full p ≡ false
    → length src < suc fuel
    → length src ≢ 0
    → length (write_chunk src p).1 < fuel
unfolding write_chunk
shrinks src p fuel v room f some =
    omega (
      arith,
      length-drop (write_span (length src) p) src,
      write_span_bounds v (length src) room some,
    )

module _ (all : List ℕ) (ref count me : ℕ) where
  write_done-Writes :
      (p : Pipe)
      → Sent all ref [] p
      → Writes all ref count (write_done (count - length {A = ℕ} []) p)
  unfolding write_done contents
  write_done-Writes p m = ground arith

  write_blocks-Writes :
      (src : List ℕ) (p : Pipe)
      → Sent all ref src p
      → 0 < length src
      → is_full p ≡ true
      → Writes all ref count (write_blocks me count src p)
  unfolding write_blocks contents is_full
  write_blocks-Writes src p m pos full = elim (Bool-cases (p.ref == 1)) [
    | inl one ↦ rw one (src, m, pos, full, ground arith)
    | inr more ↦ rw more (ground arith)
  ]

  Sent-write_chunk :
      (src : List ℕ) (p : Pipe)
      → Sent all ref src p
      → is_full p ≡ false
      → Sent all ref (write_chunk src p).1 (write_chunk src p).0
  unfolding write_chunk
  Sent-write_chunk src p m room = record {
    bytes =
        let n = write_span (length src) p in
        rw (write_chunk-contents m.valid src room) (
          append_assoc (contents p) (take n src) (drop n src)
          ∙ ap (λ t. contents p ++ t) (take-append-drop n src)
          ∙ m.bytes);
    valid = write_chunk-IsValid m.valid src;
    refs = m.refs;
  }

  write_loop-Writes :
      (fuel : ℕ) (src : List ℕ) (p : Pipe)
      → length src < fuel
      → Sent all ref src p
      → Writes all ref count (write_loop fuel me count src p)
  unfolding write_loop
  write_loop-Writes zero src p f m = absurd (omega arith)
  write_loop-Writes (suc fuel) [] p f m = write_done-Writes p m
  write_loop-Writes (suc fuel) (x ∷ xs) p f m =
      let src = x ∷ xs in
      let some : (length src == 0) ≡ false = ground arith in
      rw some (elim (Bool-cases (is_full p)) [
        | inl full ↦ rw full (write_blocks-Writes src p m (omega arith) full)
        | inr room ↦ rw room (
            write_loop-Writes fuel (write_chunk src p).1 (write_chunk src p).0
              (shrinks src p fuel m.valid room f (omega arith)) (Sent-write_chunk src p m room))
      ])

-- At a valid pipe `pipe_write` comes to an end: it writes every byte and returns their number, or
-- it raises SIGPIPE and returns -EPIPE at a full pipe that has no reader, or it sleeps at a full
-- pipe, counted as a queued writer. In each case what the pipe holds, followed by the bytes that
-- are not written, is what it held, followed by all the bytes; and the pipe is valid.
pub write-Writes :
    {p : Pipe} (me : ℕ) (src : List ℕ)
    → IsValid p
    → Writes (contents p ++ src) p.ref (length src) (write me src p)
unfolding write
write-Writes {p} me src v =
    write_loop-Writes (contents p ++ src) p.ref (length src) me (length src + 1) src p (omega arith)
      (record { bytes = refl; valid = v; refs = refl })

-- A call of `pipe_write` that is woken goes on in the same way with the bytes that it has left.
pub write_wakes-Writes :
    {p : Pipe} (me count : ℕ) (src : List ℕ)
    → IsValid p
    → Writes (contents p ++ src) p.ref count (write_wakes me count src p)
unfolding write_wakes contents
write_wakes-Writes {p} me count src v =
    write_loop-Writes (contents p ++ src) p.ref count me (length src + 1) src
      (record p { queued_writers = p.queued_writers - 1 }) (omega arith)
      (record {
        bytes = refl;
        valid = record { storage = v.storage; reads_in = v.reads_in; writes_in = v.writes_in };
        refs = refl;
      })
