-- ===== src/Fds/Tests.antt =====
-- The descriptor calls on a process with one open file.
use beeos.Prelude.{ℕ, zero, suc, ◌^◌, ◌≡◌, refl, none, some, List, [], ◌∷◌, arith}
use beeos.Prelude.Int.{pos, negsuc}
use beeos.Fds.{Table, Desc, File, Dent, no_desc, o_cloexec, close, dup, dup2, update}
use beeos.Fds.Counts.{IsCounted, calls-IsCounted, count}
use beeos.Fds.Offsets.{value, seek_end, lseek}
use beeos.Fds.Offsets.Seeks.{lseek-moves}

free_desc : ℕ → List Desc
free_desc zero = []
free_desc (suc n) = no_desc ∷ free_desc n

-- A regular file of 100 bytes, read up to byte 10.
abbrev book : File
book = record { flags = 0; ref = 1; mode = 0; off = 10; dent = 7 }

abbrev paper : Dent
paper = record { ref = 1; mode = 2 ^ 15; size = 100 }

-- Descriptor 0 leads to it, and is closed when a program is started.
abbrev desk : Table
desk = record {
  fds = record { flags = o_cloexec; fil = some 5 } ∷ free_desc 31;
  tty = 0;
  files = update (λ q. none) 5 (some book);
  dents = λ q. paper;
  pokes = [];
}

desk-IsCounted : IsCounted (λ p. 0) desk
unfolding count free_desc update
desk-IsCounted = record { size = refl; counted = λ p. ground arith; alive = λ p h. ground arith }

calls-IsCounted_example :
    IsCounted (λ p. 0) (close desk (pos 0)).1
    × IsCounted (λ p. 0) (dup desk (pos 0)).1
    × IsCounted (λ p. 0) (dup2 desk (pos 0) (pos 3)).1
calls-IsCounted_example = calls-IsCounted desk-IsCounted (pos 0) (pos 3)

lseek-moves_example :
    (lseek desk (pos 0) (negsuc 0) seek_end ≡ (
      value (pos 99),
      record desk { files = update desk.files 5 (some (record book { off = 99 })) },
    ))
unfolding update
lseek-moves_example =
    lseek-moves desk (pos 0) (negsuc 0) seek_end refl (λ e. cc) (omega arith) (omega arith)
      (omega arith) (omega arith)
