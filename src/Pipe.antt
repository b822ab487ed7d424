-- ===== src/Pipe.antt =====
-- kernel/src/ipc/pipe.c: the ring buffer of a pipe inode, and the transfers of `pipe_read` and
-- `pipe_write` up to the point where they return or put the caller to sleep.
-- A call that sleeps gives its progress back as a value; `read_wakes` and `write_wakes` go on
-- from there with whatever the pipe has become while the task slept.
pub mod Fifo
pub mod Reads
pub mod Writes
mod Tests
use beeos.Prelude.{
  ℕ, zero, suc, ◌+◌, ◌-◌, ◌^◌, Bool, ◌&&◌, ◌||◌, List, [], ◌++◌, min, ltb, leb, ◌==◌, if◌then◌else◌,
  ◌∷◌, length, take, drop, slice, overwrite, replicate,
}

-- PIPE_SIZE and DATA_SIZE; PIPE_BUF is 512 (libc/include/limits.h).
abbrev pub pipe_size : ℕ
pipe_size = 512

abbrev pub data_size : ℕ
data_size = 513

-- `struct pipe_inode`. `waiting` is the queue of the condition variable, the tasks by number.
-- Bytes are only moved, so a byte is any number.
pub record Pipe : Type 0 where
  pub ref : ℕ
  pub waiting : List ℕ
  pub nrp : ℕ
  pub nwp : ℕ
  pub queued_writers : ℕ
  pub queued_readers : ℕ
  pub buf : List ℕ

-- `pipe_inode_create`: a zeroed structure with two references.
pub create : Pipe
create = record {
  ref = 2;
  waiting = [];
  nrp = 0;
  nwp = 0;
  queued_writers = 0;
  queued_readers = 0;
  buf = replicate data_size 0;
}

-- `cond_broadcast` wakes every task of the queue.
abbrev pub broadcast : Pipe → Pipe
broadcast p = record p { waiting = [] }

-- Where a position that has reached the end of the array goes.
abbrev pub wrap : ℕ → ℕ
wrap i = if i == data_size then 0 else i

pub is_empty : Pipe → Bool
is_empty p = p.nrp == p.nwp

pub is_full : Pipe → Bool
is_full p = p.nwp + 1 == p.nrp || (p.nwp + 1 == data_size && p.nrp == 0)

-- How many bytes one round of the loop of `pipe_read` moves.
pub read_span : ℕ → Pipe → ℕ
read_span left p =
    if ltb p.nrp p.nwp then min left (p.nwp - p.nrp) else min left (data_size - p.nrp)

-- One round: the bytes, and the pipe without them.
pub read_chunk : ℕ → Pipe → List ℕ × Pipe
read_chunk left p =
    let n = read_span left p in (slice p.nrp n p.buf, record p { nrp = wrap (p.nrp + n) })

-- How many bytes one round of the loop of `pipe_write` moves.
pub write_span : ℕ → Pipe → ℕ
write_span left p =
    if leb p.nrp p.nwp
    then (let n = min left (data_size - p.nwp) in
        if (p.nwp + n == data_size) && (p.nrp == 0) then n - 1 else n)
    else min left (p.nrp - p.nwp - 1)

-- One round: the pipe with the first bytes of `src`, and the bytes that are left.
pub write_chunk : List ℕ → Pipe → Pipe × List ℕ
write_chunk src p =
    let n = write_span (length src) p in
    (record p { buf = overwrite p.nwp (take n src) p.buf; nwp = wrap (p.nwp + n) }, drop n src)

-- What a call has come to: it returns, or it sleeps on the condition variable.
pub data Reading : Type 0 where
  -- `return n`, with the bytes that are in the caller's buffer
  got : List ℕ → Pipe → Reading
  -- the `return 0` of an empty pipe without writers
  closed : List ℕ → Pipe → Reading
  -- asleep, with the bytes moved so far and the number still wanted
  asleep : List ℕ → ℕ → Pipe → Reading
  out_of_fuel : Reading

-- After the label `done`.
read_done : List ℕ → Pipe → Reading
read_done out p =
    got out
      (if ltb 0 (length out) || ((p.ref == 1) && ltb 0 p.queued_writers) then broadcast p else p)

-- The body of the inner `while`, up to `cond_wait`; `me` is the calling task.
read_blocks : ℕ → List ℕ → ℕ → Pipe → Reading
unfolding read_done
read_blocks me out left p =
    if p.ref == 1
    then closed out p
    else (if ltb 0 (length out) && (p.queued_writers == 0)
        then read_done out p
        else (let woken = if ltb 0 p.queued_writers then broadcast p else p in
            asleep out left (record woken {
              queued_readers = p.queued_readers + 1;
              waiting = woken.waiting ++ (me ∷ []);
            })))

-- The outer loop. `out` holds what has been read, so `left != count` says that it is not empty.
read_loop : ℕ → ℕ → List ℕ → ℕ → Pipe → Reading
unfolding read_done read_blocks
read_loop zero me out left p = out_of_fuel
read_loop (suc fuel) me out left p =
    let (bytes, p') = read_chunk left p in
    let rest = read_loop fuel me (out ++ bytes) (left - read_span left p) p' in
    if left == 0 then read_done out p else (if is_empty p then read_blocks me out left p else rest)

-- `left = count`, as an `int`: a count of 2 ^ 31 or more is not above 0, and none is left to read.
unfoldable pub left_of : ℕ → ℕ
left_of count = if ltb count (2 ^ 31) then count else 0

pub read : ℕ → ℕ → Pipe → Reading
unfolding read_loop left_of
read me count p = read_loop (left_of count + 1) me [] (left_of count) p

-- What follows `cond_wait` in `pipe_read`.
pub read_wakes : ℕ → List ℕ → ℕ → Pipe → Reading
unfolding read_loop
read_wakes me out left p =
    read_loop (left + 1) me out left (record p { queued_readers = p.queued_readers - 1 })

pub data Writing : Type 0 where
  -- `return n`
  put : ℕ → Pipe → Writing
  -- SIGPIPE to the caller, and `return -EPIPE`
  broken : Pipe → Writing
  -- asleep, with the number of bytes asked for and the bytes still to be written
  stalled : ℕ → List ℕ → Pipe → Writing
  no_fuel : Writing

write_done : ℕ → Pipe → Writing
write_done n p =
    put n (if ltb 0 n || ((p.ref == 1) && ltb 0 p.queued_readers) then broadcast p else p)

write_blocks : ℕ → ℕ → List ℕ → Pipe → Writing
write_blocks me count src p =
    if p.ref == 1
    then broken p
    else (let woken = if ltb 0 p.queued_readers then broadcast p else p in
        stalled count src (record woken {
          queued_writers = p.queued_writers + 1;
          waiting = woken.waiting ++ (me ∷ []);
        }))

-- `src` holds what `ptr` points at, so `left` is its length.
write_loop : ℕ → ℕ → ℕ → List ℕ → Pipe → Writing
unfolding write_done write_blocks
write_loop zero me count src p = no_fuel
write_loop (suc fuel) me count src p =
    let (p', src') = write_chunk src p in
    let rest = write_loop fuel me count src' p' in
    if length src == 0
    then write_done (count - length src) p
    else (if is_full p then write_blocks me count src p else rest)

pub write : ℕ → List ℕ → Pipe → Writing
unfolding write_loop
write me src p = write_loop (length src + 1) me (length src) src p

-- What follows `cond_wait` in `pipe_write`.
pub write_wakes : ℕ → ℕ → List ℕ → Pipe → Writing
unfolding write_loop
write_wakes me count src p =
    write_loop (length src + 1) me count src (record p { queued_writers = p.queued_writers - 1 })
