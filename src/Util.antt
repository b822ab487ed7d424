-- ===== src/Util.antt =====
-- kernel/src/util.h and kernel/src/kmalloc.c: `fnzb`, `next_pow2`, and the size class that `kmalloc`
-- picks. A word is 32 bits wide.
pub mod Logs
use Prim.Native.Nat.{bit_or}
use beeos.Prelude.{ℕ, ◌+◌, ◌-◌, ◌/◌, ◌%◌, ◌^◌, ltb, ◌==◌, if◌then◌else◌}

-- One `if` of `fnzb`: the value and the count after it.
abbrev pub fnzb_step : ℕ → ℕ × ℕ → ℕ × ℕ
fnzb_step w (v, n) = if v / 2 ^ w == 0 then (v, n) else (v / 2 ^ w, n + w)

unfoldable pub fnzb : ℕ → ℕ
fnzb v = (fnzb_step 1 (fnzb_step 2 (fnzb_step 4 (fnzb_step 8 (fnzb_step 16 (v, 0)))))).1
