-- ===== src/Util/Logs.antt =====
-- `fnzb` (kernel/src/util.h) is the binary logarithm, rounded down.
use beeos.Prelude.{ℕ, ◌+◌, ◌^◌, ◌≤◌, ◌<◌, arith}
use beeos.Util.{fnzb}

-- Of a 32-bit value that is not 0, `fnzb` gives the position of the highest bit that is set.
pub fnzb_bounds : (v : ℕ) → 0 < v → v < 2 ^ 32 → (2 ^ fnzb v ≤ v) × (v < 2 ^ (fnzb v + 1))
unfolding fnzb
fnzb_bounds v pos lt = ground arith
