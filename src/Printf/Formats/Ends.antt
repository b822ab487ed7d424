-- ===== src/Printf/Formats/Ends.antt =====
-- libc/src/stdio/vsnprintf.c: the loop of `vsnprintf` comes to an end, and what it makes of plain text
-- and of one number.
use beeos.Prelude.{ℕ, ◌+◌, ◌*◌, ◌<◌, ◌≡◌, Option, some, length}
use beeos.Printf.Formats.{Phase, outside, in_flags, in_width, in_precision, in_type, Printing}

abbrev rank : Phase → ℕ
rank outside = 0
rank in_flags = 4
rank in_width = 3
rank in_precision = 2
rank in_type = 1

-- The rounds that are left at most.
abbrev measure : Printing → ℕ
measure s = 5 * length s.fmt + rank s.phase

-- What one round has to do to the measure.
abbrev Falls : ℕ → Option Printing → Type 0
Falls n r = (s : Printing) → r ≡ some s → measure s < n
