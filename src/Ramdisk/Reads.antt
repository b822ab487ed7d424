-- ===== src/Ramdisk/Reads.antt =====
-- kernel/src/driver/ramdisk.c: a read within the whole blocks of the disk gives its bytes.
use beeos.Prelude.{
  ℕ, zero, suc, ◌+◌, ◌-◌, ◌*◌, ◌/◌, ◌%◌, ◌^◌, ◌≤◌, ◌<◌, ◌≡◌, refl, sym, ap, Bool-cases, inl, inr,
  [], ◌∷◌, ◌++◌, append-nil, arith, false, ltb, ◌==◌,
}
use beeos.Prelude.Int.{pos}
use beeos.Ramdisk.{Ramdisk, read_bytes, ramdisk_read_block, read_blocks, ramdisk_read}

pub read_bytes-append :
    (f : ℕ → ℕ) (p m n : ℕ) → read_bytes f p m ++ read_bytes f (p + m) n ≡ read_bytes f p (m + n)
unfolding read_bytes
read_bytes-append f p zero n =
    let here : p + 0 ≡ p = omega arith in let all : 0 + n ≡ n = omega arith in rw (here, all) refl
read_bytes-append f p (suc m) n =
    let next : p + suc m ≡ p + 1 + m = omega arith in
    let all : suc m + n ≡ suc (m + n) = omega arith in
    rw (next, all) (ap (λ l. f p ∷ l) (read_bytes-append f (p + 1) m n))

pub read_bytes-zero : (f : ℕ → ℕ) (p : ℕ) → read_bytes f p 0 ≡ []
unfolding read_bytes
read_bytes-zero f p = refl

read_bytes-shift :
    (f : ℕ → ℕ) (o p n : ℕ) → read_bytes (λ k. f (o + k)) p n ≡ read_bytes f (o + p) n
unfolding read_bytes
read_bytes-shift f o p zero = refl
read_bytes-shift f o p (suc n) =
    let next : o + (p + 1) ≡ o + p + 1 = omega arith in
    ap (λ l. f (o + p) ∷ l) (rw next at (read_bytes-shift f o (p + 1) n))

-- A block that lies within the disk.
read_block-whole :
    (nblk : ℕ) (d : Ramdisk)
    → d.size < 2 ^ 32 - 512
    → nblk * 512 + 512 ≤ d.size
    → ramdisk_read_block nblk d ≡ (pos 512, (λ k. d.bytes (nblk * 512 + k)))
unfolding ramdisk_read_block
read_block-whole nblk d small within =
    let off : nblk * 512 % 2 ^ 32 ≡ nblk * 512 = omega arith in
    let not_behind : ltb d.size (nblk * 512) ≡ false = ground arith in
    let whole : ltb d.size ((nblk * 512 + 512) % 2 ^ 32) ≡ false = ground arith in
    rw (off, not_behind, whole) refl

read_blocks-bytes :
    (fuel left nblk : ℕ) (d : Ramdisk)
    → d.size < 2 ^ 32 - 512
    → nblk * 512 + left ≤ d.size / 512 * 512
    → left ≤ fuel
    → read_blocks fuel left nblk d ≡ (0, read_bytes d.bytes (nblk * 512) left)
unfolding read_blocks
read_blocks-bytes zero zero nblk d small within l =
    ap (λ b. (0, b)) (sym (read_bytes-zero d.bytes (nblk * 512)))
read_blocks-bytes zero (suc left) nblk d small within l = absurd (omega (arith, l))
read_blocks-bytes (suc n) zero nblk d small within l =
    ap (λ b. (0, b)) (sym (read_bytes-zero d.bytes (nblk * 512)))
read_blocks-bytes (suc n) (suc left) nblk d small within l =
    let block = read_block-whole nblk d small (omega (arith, within)) in
    let start : nblk * 512 + 0 ≡ nblk * 512 = omega arith in
    let some_left : (suc left == 0) ≡ false = ground arith in
    elim (Bool-cases (ltb 512 (suc left))) [
      | inl more ↦
          let big : 512 < suc left = ground (arith, more) in
          let rest =
            read_blocks-bytes n (suc left - 512) (nblk + 1) d small (omega (arith, within, big))
              (omega (arith, l, big)) in
          let next : (nblk + 1) * 512 ≡ nblk * 512 + 512 = omega arith in
          let all : 512 + (suc left - 512) ≡ suc left = omega (arith, big) in
          let joined : read_bytes d.bytes (nblk * 512) 512
                ++ read_bytes d.bytes (nblk * 512 + 512) (suc left - 512)
              ≡ read_bytes d.bytes (nblk * 512) (suc left) =
            rw all at (read_bytes-append d.bytes (nblk * 512) 512 (suc left - 512)) in
          rw
            (some_left, block, more, rest, next, read_bytes-shift d.bytes (nblk * 512) 0 512, start)
            (ap (λ b. (0, b)) joined)
      | inr last ↦
          let few : suc left ≤ 512 = ground (arith, last) in
          let none_left : suc left - suc left ≡ 0 = omega arith in
          let rest =
            read_blocks-bytes n 0 (nblk + 1) d small (omega (arith, within, few)) (omega arith) in
          rw
            (
              some_left,
              block,
              last,
              none_left,
              rest,
              read_bytes-shift d.bytes (nblk * 512) 0 (suc left),
              start,
              read_bytes-zero d.bytes ((nblk + 1) * 512),
              append-nil,
            )
            refl
    ]

-- A read of at least one byte that ends within the whole blocks of a disk of less than 2 ^ 32 - 512
-- bytes returns its size and copies exactly the bytes of the disk from the offset on.
pub ramdisk_read-bytes :
    (size off : ℕ) (d : Ramdisk)
    → d.size < 2 ^ 32 - 512
    → 0 < size
    → off + size ≤ d.size / 512 * 512
    → ramdisk_read size off d ≡ (pos size, read_bytes d.bytes off size)
unfolding ramdisk_read
ramdisk_read-bytes size off d small positive within =
    let nblk = off / 512 in
    let ioff = off % 512 in
    let block = read_block-whole nblk d small (omega (arith, within, positive)) in
    let start : nblk * 512 + ioff ≡ off = omega arith in
    elim (Bool-cases (ltb (512 - ioff) size)) [
      | inl more ↦
          let big : 512 - ioff < size = ground (arith, more) in
          let m = 512 - ioff in
          let rest =
            read_blocks-bytes (size - m) (size - m) (nblk + 1) d small (omega (arith, within, big))
              (omega arith) in
          let next : (nblk + 1) * 512 ≡ off + m = omega arith in
          let all : m + (size - m) ≡ size = omega (arith, big) in
          let copied : size - 0 ≡ size = omega arith in
          let joined : read_bytes d.bytes off m ++ read_bytes d.bytes (off + m) (size - m)
              ≡ read_bytes d.bytes off size =
            rw all at (read_bytes-append d.bytes off m (size - m)) in
          rw (block, more, rest, next, read_bytes-shift d.bytes (nblk * 512) ioff m, start, copied)
            (ap (λ b. (pos size, b)) joined)
      | inr last ↦
          let few : size ≤ 512 - ioff = ground (arith, last) in
          let none_left : size - size ≡ 0 = omega arith in
          let copied : size - 0 ≡ size = omega arith in
          rw
            (
              block,
              last,
              none_left,
              read_bytes-shift d.bytes (nblk * 512) ioff size,
              start,
              copied,
              append-nil,
            )
            refl
    ]
