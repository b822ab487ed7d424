-- ===== src/Zone/Within.antt =====
-- `iswithin` of kernel/src/mm/frame.c.
use beeos.Prelude.{ℕ, ◌+◌, ◌^◌, ◌≤◌, ◌<◌, ◌≡◌, true, arith}
use mathlib.Core.Logic.{◌↔◌}
use beeos.Zone.{is_within}

-- For two ranges that are not empty and lie within the 32-bit address space (up to its very end),
-- `iswithin` tells exactly whether the second lies inside the first.
pub is_within_iff :
    (b1 sz1 b2 sz2 : ℕ)
    → 0 < sz1
    → 0 < sz2
    → b1 + sz1 ≤ 2 ^ 32
    → b2 + sz2 ≤ 2 ^ 32
    → (is_within b1 sz1 b2 sz2 ≡ true) ↔ ((b1 ≤ b2) × (b2 + sz2 ≤ b1 + sz1))
unfolding is_within
is_within_iff b1 sz1 b2 sz2 h1 h2 h3 h4 = ground arith
