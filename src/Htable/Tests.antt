-- ===== src/Htable/Tests.antt =====
-- A table of 8 slots at the address 100.
use beeos.Prelude.{inl, refl, [], ◌∷◌, arith}
use beeos.Htable.{Htable, hash_64, insert_at, htable_insert, htable_delete}
use beeos.Htable.Chains.{Bucket}
use beeos.Htable.Buckets.{
  IsTable, IsNew, put, insert_at-IsTable, htable_insert-IsTable, htable_delete-IsTable,
}
use beeos.Links.Rings.{Distinct}

abbrev empty : Htable
empty = record { next = λ q. 0; pprev = λ q. 0 }

empty-IsTable : IsTable empty 100 8 (λ i. [])
unfolding Bucket Distinct
empty-IsTable = record {
  chain = λ i l. refl;
  distinct = λ i l. tt;
  nodes = λ i l. tt;
  outside = λ i l. tt;
  apart = λ i j li lj ne. tt;
}

five-IsNew : IsNew 100 8 (λ i. []) 5
five-IsNew = record { valid = omega arith; outside = λ j l e. omega (arith, e); fresh = λ j l. tt }

htable_insert-IsTable_example :
    IsTable (htable_insert 100 5 7 3 empty) 100 8 (put (λ i. []) (hash_64 7 3) (5 ∷ []))
htable_insert-IsTable_example =
    (htable_insert-IsTable empty 100 7 3 (λ i. []) 5 (inl refl) empty-IsTable five-IsNew).0

abbrev one : Htable
one = insert_at 103 5 empty

one-IsTable : IsTable one 100 8 (put (λ i. []) 3 (5 ∷ []))
one-IsTable = insert_at-IsTable empty 100 8 (λ i. []) 3 5 empty-IsTable (omega arith) five-IsNew

htable_delete-IsTable_example :
    IsTable (htable_delete 5 one) 100 8 (put (put (λ i. []) 3 (5 ∷ [])) 3 [])
htable_delete-IsTable_example =
    htable_delete-IsTable one 100 8 (put (λ i. []) 3 (5 ∷ [])) 3 [] 5 [] one-IsTable (omega arith)
      refl
