-- ===== src/Random/Tests.antt =====
-- A read of five bytes at an address that is a multiple of 4.
use beeos.Prelude.{◌≡◌, false, inr, ◌∷◌, [], arith}
use beeos.Prelude.Int.{pos}
use beeos.Random.{Random, random_read}
use beeos.Random.Spans.{span, random_read-span}

abbrev fresh : Random
fresh = record { z = λ i. 0; rand_initialized = false }

random_read-span_example :
    let (n, (s', mem')) = random_read (7 ∷ 1 ∷ 0 ∷ 0 ∷ []) 8 5 fresh (λ q. 9) in
    (n ≡ pos 5) × (mem' 13 ≡ 9)
unfolding span
random_read-span_example =
    random_read-span (7 ∷ 1 ∷ 0 ∷ 0 ∷ []) 8 5 fresh (λ q. 9) 13 (omega arith) (inr (omega arith))
