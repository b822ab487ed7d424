-- ===== src/Pipe/Reads.antt =====
-- Whole calls of `pipe_read` (kernel/src/ipc/pipe.c), from entry to the point where they return
-- or sleep.
use beeos.Prelude.{
  ℕ, zero, suc, ◌+◌, ◌-◌, ◌^◌, ◌<◌, ◌≡◌, refl, ap, ◌∙◌, ◌≢◌, ◌⊎◌, inl, inr, true, false, List, [],
  ◌++◌, append_assoc, arith, ltb, if◌then◌else◌, ◌==◌, length, Bool-cases, length-append,
}
use beeos.Pipe.{
  Pipe, Reading, got, closed, asleep, out_of_fuel, read_done, read_blocks, read_loop, read,
  read_wakes, left_of, is_empty, read_span, read_chunk,
}
use beeos.Pipe.Fifo.{
  IsValid, contents, read_chunk-contents, read_chunk-IsValid, read_span_bounds, length-read_chunk,
}

-- The bytes `out` have left the front of a pipe that held `q` and had `ref` references.
pub record Moved (q : List ℕ) (ref : ℕ) (out : List ℕ) (p : Pipe) : Type 0 where
  pub bytes : out ++ contents p ≡ q
  pub valid : IsValid p
  pub refs : p.ref ≡ ref

-- What a call that asked for `count` bytes has done when it stops.
abbrev pub Reads : List ℕ → ℕ → ℕ → Reading → Type 0
Reads q ref count (got out p) =
    Moved q ref out p
    × ((length out ≡ count)
        ⊎ ((0 < length out) × (length out < count) × (is_empty p ≡ true) × (ref ≢ 1)))
Reads q ref count (closed out p) =
    Moved q ref out p × (length out < count) × (is_empty p ≡ true) × (ref ≡ 1)
Reads q ref count (asleep out left p) =
    Moved q ref out p
    × (length out + left ≡ count)
    × (0 < left)
    × (is_empty p ≡ true)
    × (ref ≢ 1)
    × (0 < p.queued_readers)
    × ((out ≡ []) ⊎ (0 < p.queued_writers))
Reads q ref count out_of_fuel = ⊥

module _ (q : List ℕ) (ref count me : ℕ) (out : List ℕ) (left : ℕ) (p : Pipe)
    (e : length out + left ≡ count) (m : Moved q ref out p) where
  read_done-Reads :
      (left ≡ 0) ⊎ ((0 < length out) × (0 < left) × (is_empty p ≡ true) × (ref ≢ 1))
      → Reads q ref count (read_done out p)
  unfolding read_done contents is_empty
  read_done-Reads h = ground arith

  read_blocks-Reads : 0 < left → is_empty p ≡ true → Reads q ref count (read_blocks me out left p)
  unfolding read_blocks contents is_empty
  read_blocks-Reads pos empty = ground arith

  -- One round of the loop keeps what is known of the bytes.
  Moved-read_chunk :
      is_empty p ≡ false → Moved q ref (out ++ (read_chunk left p).0) (read_chunk left p).1
  unfolding read_chunk
  Moved-read_chunk some = record {
    bytes =
        append_assoc out _ _ ∙ ap (λ t. out ++ t) (read_chunk-contents m.valid left some) ∙ m.bytes;
    valid = read_chunk-IsValid m.valid left;
    refs = m.refs;
  }

module _ (q : List ℕ) (ref count me : ℕ) where
  read_loop-Reads :
      (fuel : ℕ) (out : List ℕ) (left : ℕ) (p : Pipe)
      → left < fuel
      → length out + left ≡ count
      → Moved q ref out p
      → Reads q ref count (read_loop fuel me out left p)
  unfolding read_loop
  read_loop-Reads zero out left p f e m = absurd (omega arith)
  read_loop-Reads (suc fuel) out left p f e m = elim (Bool-cases (left == 0)) [
    | inl done ↦ rw done (read_done-Reads q ref count me out left p e m (inl (ground arith)))
    | inr more ↦ rw more (elim (Bool-cases (is_empty p)) [
      | inl empty ↦ rw empty (read_blocks-Reads q ref count me out left p e m (ground arith) empty)
      | inr some ↦ rw some (
          read_loop-Reads fuel (out ++ (read_chunk left p).0) (left - read_span left p)
            (read_chunk left p).1 (omega (arith, read_span_bounds m.valid left some (ground arith)))
            (omega (
              arith,
              read_span_bounds m.valid left some (ground arith),
              length-append out (read_chunk left p).0,
              length-read_chunk m.valid left,
            ))
            (Moved-read_chunk q ref count me out left p e m some))
    ])
  ]

-- At a valid pipe `pipe_read` comes to an end, where a `count` of 2 ^ 31 or more wants no byte and
-- one below wants `count` bytes: it returns all the bytes wanted, or fewer (but some) from a pipe that it has emptied and that still has a writer, or 0 when the pipe is empty
-- and has no writer, or it sleeps at an empty pipe, counted as a queued reader, having read
-- nothing or with a writer queued. In each case the bytes that it took, followed by those still
-- in the pipe, are those that the pipe held, and the pipe is valid.
pub read-Reads :
    {p : Pipe} (me count : ℕ)
    → IsValid p
    → Reads (contents p) p.ref (if ltb count (2 ^ 31) then count else 0) (read me count p)
unfolding read left_of
read-Reads {p} me count v =
    let left = left_of count in
    read_loop-Reads (contents p) p.ref left me (left + 1) [] left p (omega arith) (omega arith)
      (record { bytes = refl; valid = v; refs = refl })

-- A call of `pipe_read` that is woken goes on in the same way: what it has read so far and what
-- the pipe holds when it wakes make up the bytes that it reads and those that it leaves.
pub read_wakes-Reads :
    {p : Pipe} (me : ℕ) (out : List ℕ) (left : ℕ)
    → IsValid p
    → Reads (out ++ contents p) p.ref (length out + left) (read_wakes me out left p)
unfolding read_wakes contents
read_wakes-Reads {p} me out left v =
    read_loop-Reads (out ++ contents p) p.ref (length out + left) me (left + 1) out left
      (record p { queued_readers = p.queued_readers - 1 }) (omega arith) refl
      (record {
        bytes = refl;
        valid = record { storage = v.storage; reads_in = v.reads_in; writes_in = v.writes_in };
        refs = refl;
      })
