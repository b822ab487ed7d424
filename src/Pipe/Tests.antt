-- ===== src/Pipe/Tests.antt =====
-- Runs of the pipe, and the theorems at concrete pipes.
use beeos.Prelude.{◌≡◌, refl, [], ◌∷◌, ◌++◌, arith, replicate}
use beeos.Pipe.{left_of, is_empty, read_span, read_chunk, Pipe, read, write, got}
use beeos.Pipe.Fifo.{IsValid, contents}
use beeos.Pipe.Reads.{Reads, read-Reads}
use beeos.Pipe.Writes.{Writes, write-Writes}

-- Three bytes that go round the end of the array, and no other end.
abbrev wrapped : Pipe
wrapped = record {
  ref = 1;
  waiting = [];
  nrp = 511;
  nwp = 1;
  queued_writers = 0;
  queued_readers = 0;
  buf = 7 ∷ replicate 510 0 ++ (5 ∷ 6 ∷ []);
}

wrapped-IsValid : IsValid wrapped
wrapped-IsValid = omega arith

contents-wrapped : contents wrapped ≡ 5 ∷ 6 ∷ 7 ∷ []
unfolding contents
contents-wrapped = refl

read_two : read 4 2 wrapped ≡ got (5 ∷ 6 ∷ []) (record wrapped { nrp = 0 })
unfolding read left_of is_empty read_span read_chunk
read_two = refl

read-Reads_example : Reads (contents wrapped) 1 2 (read 4 2 wrapped)
read-Reads_example = read-Reads 4 2 wrapped-IsValid

write-Writes_example : Writes (contents wrapped ++ (8 ∷ [])) 1 1 (write 4 (8 ∷ []) wrapped)
write-Writes_example = write-Writes 4 (8 ∷ []) wrapped-IsValid
