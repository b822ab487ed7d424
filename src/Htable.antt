-- ===== src/Htable.antt =====
-- kernel/src/htable.h: hash tables of linked nodes. A table is an array of pointers; `next` is the
-- pointer at an address, which is a slot of the array or a node, whose `next` field is its first;
-- `pprev` is that field of a node. 0 is NULL.

pub mod Hashes
pub mod Chains
pub mod Buckets
mod Tests
use Prim.Native.Nat.{bit_xor}
use beeos.Prelude.{ℕ, ◌+◌, ◌-◌, ◌*◌, ◌/◌, ◌%◌, ◌^◌, ◌&&◌, leb, ltb, ◌==◌, if◌then◌else◌}

pub record Htable : Type 0 where
  pub next : ℕ → ℕ
  pub pprev : ℕ → ℕ

abbrev pub set_next : ℕ → ℕ → Htable → Htable
set_next p v h = record h { next = λ q. if q == p then v else h.next q }

abbrev pub set_pprev : ℕ → ℕ → Htable → Htable
set_pprev p v h = record h { pprev = λ q. if q == p then v else h.pprev q }

-- A `uint32_t` and a `uint64_t`.
abbrev pub u32 : ℕ → ℕ
u32 v = v % 2 ^ 32

abbrev pub u64 : ℕ → ℕ
u64 v = v % 2 ^ 64

pub hash_32 : ℕ → ℕ → ℕ
hash_32 val bits =
    let v1 = bit_xor (bit_xor val 61) (val / 2 ^ 16) in
    let v2 = u32 (v1 + v1 * 2 ^ 3) in
    let v3 = bit_xor v2 (v2 / 2 ^ 4) in
    let v4 = u32 (v3 * 0x27d4eb2d) in let v5 = bit_xor v4 (v4 / 2 ^ 15) in v5 / 2 ^ (32 - bits)

-- `~v` of 64 bits is 2 ^ 64 - 1 - v.
unfoldable pub hash_64 : ℕ → ℕ → ℕ
hash_64 val bits =
    let v1 = u64 (2 ^ 64 - 1 - val + val * 2 ^ 21) in
    let v2 = bit_xor v1 (v1 / 2 ^ 24) in
    let v3 = u64 (u64 (v2 + v2 * 2 ^ 3) + v2 * 2 ^ 8) in
    let v4 = bit_xor v3 (v3 / 2 ^ 14) in
    let v5 = u64 (u64 (v4 + v4 * 2 ^ 2) + v4 * 2 ^ 4) in
    let v6 = bit_xor v5 (v5 / 2 ^ 28) in let v7 = u64 (v6 + v6 * 2 ^ 31) in v7 / 2 ^ (64 - bits)

-- `hash` of a key, which is a `long long`.
unfoldable pub slot : ℕ → ℕ → ℕ → ℕ
unfolding hash_64
slot htable key bits = htable + hash_64 key bits

pub htable_init : ℕ → ℕ → Htable → Htable
htable_init htable bits h = record h {
  next = λ q. if leb htable q && ltb q (htable + 2 ^ bits) then 0 else h.next q;
}

-- `htable_insert` once the slot is known.
unfoldable pub insert_at : ℕ → ℕ → Htable → Htable
insert_at i node h =
    let h1 = set_next node (h.next i) h in
    let h2 = set_pprev node i h1 in
    let h3 = if h2.next i == 0 then h2 else set_pprev (h2.next i) node h2 in set_next i node h3

unfoldable pub htable_insert : ℕ → ℕ → ℕ → ℕ → Htable → Htable
unfolding slot insert_at
htable_insert htable node key bits h = insert_at (slot htable key bits) node h

unfoldable pub htable_delete : ℕ → Htable → Htable
htable_delete node h =
    let next = h.next node in
    let pprev = h.pprev node in
    let h1 = set_next pprev next h in if next == 0 then h1 else set_pprev next pprev h1

unfoldable pub htable_lookup : ℕ → ℕ → ℕ → Htable → ℕ
unfolding slot
htable_lookup htable key bits h = h.next (slot htable key bits)
