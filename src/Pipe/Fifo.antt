-- ===== src/Pipe/Fifo.antt =====
-- The ring of kernel/src/ipc/pipe.c as a queue of bytes.
use beeos.Prelude.{
  ℕ, ◌+◌, ◌-◌, ◌≤◌, ◌<◌, ◌≡◌, ◌≢◌, false, List, ◌++◌, append-nil, append_assoc, arith, leb,
  if◌then◌else◌, length, take, drop, slice, overwrite, slice-append, slice-overwrite_before,
  slice-overwrite_self, drop-overwrite, length-overwrite, length-take, length-drop,
}
use beeos.Pipe.{
  Pipe, data_size, wrap, is_empty, is_full, read_span, read_chunk, write_span, write_chunk,
}

-- The array has its size, and both positions lie in it.
pub record IsValid (p : Pipe) : Type 0 where
  pub storage : length p.buf ≡ data_size
  pub reads_in : p.nrp < data_size
  pub writes_in : p.nwp < data_size

-- The bytes in the pipe, oldest first.
unfoldable pub contents : Pipe → List ℕ
contents p =
    if leb p.nrp p.nwp
    then slice p.nrp (p.nwp - p.nrp) p.buf
    else slice p.nrp (data_size - p.nrp) p.buf ++ slice 0 p.nwp p.buf

module _ {p : Pipe} (v : IsValid p) where
  -- A round of `pipe_read` at a pipe that is not empty takes the oldest bytes from its front.
  pub read_chunk-contents :
      (left : ℕ)
      → is_empty p ≡ false
      → let (bytes, p') = read_chunk left p in bytes ++ contents p' ≡ contents p
  unfolding read_chunk read_span contents is_empty
  read_chunk-contents left ne =
      let n = read_span left p in
      ground (
        arith,
        slice-append p.nrp n (p.nrp + n) (p.nwp - (p.nrp + n)) (p.nwp - p.nrp) p.buf,
        slice-append p.nrp n (p.nrp + n) (data_size - (p.nrp + n)) (data_size - p.nrp) p.buf,
        append_assoc (slice p.nrp n p.buf) (slice (p.nrp + n) (data_size - (p.nrp + n)) p.buf)
            (slice 0 p.nwp p.buf),
      )

  pub read_chunk-IsValid : (left : ℕ) → IsValid (read_chunk left p).1
  unfolding read_chunk read_span
  read_chunk-IsValid left = ground arith

  -- A round moves at least one byte, and no more than are wanted.
  pub read_span_bounds :
      (left : ℕ)
      → is_empty p ≡ false
      → left ≢ 0
      → (0 < read_span left p) × (read_span left p ≤ left)
  unfolding read_span is_empty
  read_span_bounds left ne pos = ground arith

  read_span_fits : (left : ℕ) → p.nrp + read_span left p ≤ data_size
  unfolding read_span
  read_span_fits left = ground arith

  pub length-read_chunk : (left : ℕ) → length (read_chunk left p).0 ≡ read_span left p
  unfolding read_chunk
  length-read_chunk left = omega (
    arith,
    length-take (read_span left p) (drop p.nrp p.buf),
    length-drop p.nrp p.buf,
    read_span_fits left,
  )

  pub write_span_bounds :
      (left : ℕ)
      → is_full p ≡ false
      → left ≢ 0
      → (0 < write_span left p) × (write_span left p ≤ left)
  unfolding write_span is_full
  write_span_bounds left nf pos = ground arith

  pub write_chunk-IsValid : (src : List ℕ) → IsValid (write_chunk src p).0
  unfolding write_chunk write_span
  write_chunk-IsValid src =
      let n = write_span (length src) p in ground (arith, length-overwrite p.nwp (take n src) p.buf)

  -- Where a write of `xs` at the write position may end.
  abbrev Fits : List ℕ → Type 0
  Fits xs =
      (p.nrp ≤ p.nwp → p.nwp + length xs ≤ data_size)
      × (p.nwp + length xs ≡ data_size → p.nrp ≤ p.nwp → p.nrp ≢ 0)
      × (p.nwp < p.nrp → p.nwp + length xs < p.nrp)

  overwrite-contents :
      (xs : List ℕ)
      → Fits xs
      → contents (record p { buf = overwrite p.nwp xs p.buf; nwp = wrap (p.nwp + length xs) })
        ≡ contents p ++ xs
  unfolding contents
  overwrite-contents xs fits =
      let n = length xs in
      let new = overwrite p.nwp xs p.buf in
      ground (
        arith,
        fits.0,
        fits.1,
        fits.2,
        slice-append p.nrp (p.nwp - p.nrp) p.nwp n (p.nwp + n - p.nrp) new,
        slice-append 0 p.nwp p.nwp n (p.nwp + n) new,
        slice-overwrite_before p.nrp (p.nwp - p.nrp) p.nwp xs p.buf,
        slice-overwrite_before 0 p.nwp p.nwp xs p.buf,
        slice-overwrite_self p.nwp xs p.buf,
        drop-overwrite p.nrp p.nwp xs p.buf,
        append_assoc (slice p.nrp (data_size - p.nrp) p.buf) (slice 0 p.nwp p.buf) xs,
        append-nil (slice p.nrp (p.nwp + n - p.nrp) new),
      )

  length-take_span :
      (src : List ℕ) → length (take (write_span (length src) p) src) ≡ write_span (length src) p
  unfolding write_span
  length-take_span src = ground (arith, length-take (write_span (length src) p) src)

  write_span-Fits : (src : List ℕ) → is_full p ≡ false → Fits (take (write_span (length src) p) src)
  unfolding write_span is_full
  write_span-Fits src nf = rw length-take_span (ground arith, ground arith, ground arith)

  -- A round of `pipe_write` at a pipe that is not full puts the first bytes behind the others.
  pub write_chunk-contents :
      (src : List ℕ)
      → is_full p ≡ false
      → contents (write_chunk src p).0 ≡ contents p ++ take (write_span (length src) p) src
  unfolding write_chunk
  write_chunk-contents src nf =
      rw length-take_span at
        (overwrite-contents (take (write_span (length src) p) src) (write_span-Fits src nf))
