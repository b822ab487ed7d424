-- ===== src/Htable/Buckets.antt =====
-- kernel/src/htable.h: all chains of a table.
use beeos.Prelude.{
  ℕ, ◌+◌, ◌^◌, ◌<◌, ◌≡◌, refl, sym, ◌≢◌, List, [], ◌∷◌, ◌++◌, All, All-both, Bool-cases, ◌⊎◌, inl,
  inr, arith, ◌==◌, if◌then◌else◌,
}
use beeos.Links.Rings.{Fresh, Distinct}
use beeos.Links.Deletes.{Distinct-Parted}
use beeos.Htable.{
  Htable, set_next, set_pprev, htable_lookup, insert_at, htable_insert, htable_delete, slot,
  hash_64,
}
use beeos.Htable.Hashes.{hash_64-lt}
use beeos.Htable.Chains.{
  Bucket, Bucket-frame, insert_at-Bucket, insert_at-other, delete-Bucket, delete-other,
}

-- The address is none of the `n` slots.
abbrev pub Outside : ℕ → ℕ → ℕ → Type 0
Outside base n x = (j : ℕ) → j < n → x ≢ base + j

-- The table at `base` with `n` slots, of which the slot `i` leads through the nodes `B i`.
pub record IsTable (h : Htable) (base n : ℕ) (B : ℕ → List ℕ) : Type 0 where
  pub chain : (i : ℕ) → i < n → Bucket h (base + i) (B i)
  pub distinct : (i : ℕ) → i < n → Distinct (B i)
  pub nodes : (i : ℕ) → i < n → All (λ x. x ≢ 0) (B i)
  pub outside : (i : ℕ) → i < n → All (λ x. Outside base n x) (B i)
  pub apart : (i j : ℕ) → i < n → j < n → i ≢ j → All (λ x. Fresh x (B j)) (B i)

abbrev pub put : (ℕ → List ℕ) → ℕ → List ℕ → ℕ → List ℕ
put B i v j = if j == i then v else B j

-- What holds of the new nodes of one slot and of the old ones of the others.
pub at-put :
    (P : ℕ → List ℕ → Type 0) (n i : ℕ) (B : ℕ → List ℕ) (v : List ℕ)
    → P i v
    → ((j : ℕ) → j < n → j ≢ i → P j (B j))
    → (j : ℕ) → j < n
    → P j (put B i v j)
at-put P n i B v here there j l = elim (Bool-cases (j == i)) [
  | inl same ↦ let e : j ≡ i = ground (arith, same) in rw same (rw e here)
  | inr differ ↦ let ne : j ≢ i = ground (arith, differ) in rw differ (there j l ne)
]

slots-differ : (base i j : ℕ) → j ≢ i → base + j ≢ base + i
slots-differ base i j ne = λ e. ne (omega (arith, e))

-- A slot is no node of the table.
Fresh-slot :
    (base n k : ℕ) (xs : List ℕ) → k < n → All (λ x. Outside base n x) xs → Fresh (base + k) xs
Fresh-slot base n k xs l out = All-both (λ x o _. o k l) xs out out

-- A new node for the slot `i`.
pub record IsNew (base n : ℕ) (B : ℕ → List ℕ) (node : ℕ) : Type 0 where
  pub valid : node ≢ 0
  pub outside : Outside base n node
  pub fresh : (j : ℕ) → j < n → Fresh node (B j)

pub insert_at-IsTable :
    (h : Htable) (base n : ℕ) (B : ℕ → List ℕ) (i node : ℕ)
    → IsTable h base n B
    → i < n
    → IsNew base n B node
    → IsTable (insert_at (base + i) node h) base n (put B i (node ∷ B i))
unfolding Distinct
insert_at-IsTable h base n B i node t l new =
    let h' = insert_at (base + i) node h in
    let fresh_i = Fresh-slot base n i (B i) l (t.outside i l) in
    record {
      chain =
          at-put (λ j xs. Bucket h' (base + j) xs) n i B (node ∷ B i)
            (insert_at-Bucket h (base + i) node (B i) (t.chain i l) (t.distinct i l)
              (new.outside i l) new.valid (new.fresh i l) fresh_i)
            (λ j lj ne.
              insert_at-other h (base + i) node (B i) (base + j) (B j) (t.chain i l)
                (new.outside i l) new.valid (new.fresh i l) (t.chain j lj)
                (slots-differ base i j ne) (λ e. new.outside j lj (sym e))
                (Fresh-slot base n i (B j) l (t.outside j lj)) (new.fresh j lj) (t.nodes j lj)
                (t.apart j i lj l ne));
      distinct =
          at-put (λ j xs. Distinct xs) n i B (node ∷ B i) (new.fresh i l, t.distinct i l)
            (λ j lj ne. t.distinct j lj);
      nodes =
          at-put (λ j xs. All (λ x. x ≢ 0) xs) n i B (node ∷ B i) (new.valid, t.nodes i l)
            (λ j lj ne. t.nodes j lj);
      outside =
          at-put (λ j xs. All (λ x. Outside base n x) xs) n i B (node ∷ B i)
            (new.outside, t.outside i l) (λ j lj ne. t.outside j lj);
      apart = λ j k lj lk ne. apart_put j k lj lk ne;
    }
  where
    with_node : (j : ℕ) (lj : j < n) → j ≢ i → All (λ x. Fresh x (node ∷ B i)) (B j)
    with_node j lj ne =
        All-both (λ x f new_x. ((λ e. new_x (sym e)), f)) (B j) (t.apart j i lj l ne)
          (new.fresh j lj)

    apart_put :
        (j k : ℕ)
        → j < n
        → k < n
        → j ≢ k
        → All (λ x. Fresh x (put B i (node ∷ B i) k)) (put B i (node ∷ B i) j)
    apart_put j k lj lk =
        at-put (λ j xs. j ≢ k → All (λ x. Fresh x (put B i (node ∷ B i) k)) xs) n i B (node ∷ B i)
          (λ ne.
            at-put (λ k ys. i ≢ k → All (λ x. Fresh x ys) (node ∷ B i)) n i B (node ∷ B i)
              (λ same. absurd (same refl)) (λ k lk _ ne. (new.fresh k lk, t.apart i k l lk ne)) k lk
              ne)
          (λ j lj ji ne.
            at-put (λ k ys. j ≢ k → All (λ x. Fresh x ys) (B j)) n i B (node ∷ B i)
              (λ _. with_node j lj ji) (λ k lk _ jk. t.apart j k lj lk jk) k lk ne)
          j lj

All-without :
    (P : ℕ → Type 0) (xs : List ℕ) (x : ℕ) (ys : List ℕ) → All P (xs ++ (x ∷ ys)) → All P (xs ++ ys)
All-without P [] x ys (p, a) = a
All-without P (z ∷ zs) x ys (p, a) = (p, All-without P zs x ys a)

-- The node `x` of the slot `i`, between `xs` and `ys`.
pub record IsAt (B : ℕ → List ℕ) (i : ℕ) (xs : List ℕ) (x : ℕ) (ys : List ℕ) : Type 0 where
  pub parts : B i ≡ xs ++ (x ∷ ys)

pub delete-IsTable :
    (h : Htable) (base n : ℕ) (B : ℕ → List ℕ) (i : ℕ) (xs : List ℕ) (x : ℕ) (ys : List ℕ)
    → IsTable h base n B
    → i < n
    → IsAt B i xs x ys
    → IsTable (htable_delete x h) base n (put B i (xs ++ ys))
unfolding Distinct
delete-IsTable h base n B i xs x ys t l at =
    let e = at.parts in
    let h' = htable_delete x h in
    let chain = rw e at (t.chain i l) in
    let fresh_i = rw e at (Fresh-slot base n i (B i) l (t.outside i l)) in
    let distinct = rw e at (t.distinct i l) in
    record {
      chain =
          at-put (λ j zs. Bucket h' (base + j) zs) n i B (xs ++ ys)
            (delete-Bucket h (base + i) xs x ys chain (fresh_i, distinct))
            (λ j lj ne.
              delete-other h (base + i) xs x ys (base + j) (B j) chain (t.chain j lj)
                (slots-differ base i j ne) (t.nodes j lj)
                (Fresh-slot base n i (B j) l (t.outside j lj))
                (rw e at (Fresh-slot base n j (B i) lj (t.outside i l)))
                (rw e at (t.apart j i lj l ne)));
      distinct =
          at-put (λ j zs. Distinct zs) n i B (xs ++ ys) (Distinct-Parted xs x ys distinct).joined
            (λ j lj ne. t.distinct j lj);
      nodes =
          at-put (λ j zs. All (λ z. z ≢ 0) zs) n i B (xs ++ ys)
            (All-without (λ z. z ≢ 0) xs x ys (rw e at (t.nodes i l))) (λ j lj ne. t.nodes j lj);
      outside =
          at-put (λ j zs. All (λ z. Outside base n z) zs) n i B (xs ++ ys)
            (All-without (λ z. Outside base n z) xs x ys (rw e at (t.outside i l)))
            (λ j lj ne. t.outside j lj);
      apart = λ j k lj lk ne. apart_put j k lj lk ne;
    }
  where
    fewer :
        (zs : List ℕ) → All (λ z. Fresh z (xs ++ (x ∷ ys))) zs → All (λ z. Fresh z (xs ++ ys)) zs
    fewer zs a = All-both (λ z f _. All-without (λ q. q ≢ z) xs x ys f) zs a a

    apart_put :
        (j k : ℕ)
        → j < n
        → k < n
        → j ≢ k
        → All (λ z. Fresh z (put B i (xs ++ ys) k)) (put B i (xs ++ ys) j)
    apart_put j k lj lk =
        at-put (λ j zs. j ≢ k → All (λ z. Fresh z (put B i (xs ++ ys) k)) zs) n i B (xs ++ ys)
          (λ ne.
            at-put (λ k zs. i ≢ k → All (λ z. Fresh z zs) (xs ++ ys)) n i B (xs ++ ys)
              (λ same. absurd (same refl))
              (λ k lk _ ne.
                All-without (λ z. Fresh z (B k)) xs x ys (rw at.parts at (t.apart i k l lk ne)))
              k lk ne)
          (λ j lj ji ne.
            at-put (λ k zs. j ≢ k → All (λ z. Fresh z zs) (B j)) n i B (xs ++ ys)
              (λ _. fewer (B j) (rw at.parts at (t.apart j i lj l ji)))
              (λ k lk _ jk. t.apart j k lj lk jk) k lk ne)
          j lj

-- Both sizes of tables that the kernel has: for inodes and for the buffers of a cache.
slot_index-lt : (key bits : ℕ) → (bits ≡ 3) ⊎ (bits ≡ 5) → hash_64 key bits < 2 ^ bits
slot_index-lt key bits (inl e) = rw e (hash_64-lt key).0
slot_index-lt key bits (inr e) = rw e (hash_64-lt key).1

-- In a table of 8 or 32 slots `htable_insert` of a node that is not in it puts the node at the front
-- of the chain of its key's slot and leaves the other chains, and `htable_lookup` of the key finds it.
pub htable_insert-IsTable :
    (h : Htable) (base key bits : ℕ) (B : ℕ → List ℕ) (node : ℕ)
    → (bits ≡ 3) ⊎ (bits ≡ 5)
    → IsTable h base (2 ^ bits) B
    → IsNew base (2 ^ bits) B node
    → let i = hash_64 key bits in
      let h' = htable_insert base node key bits h in
      IsTable h' base (2 ^ bits) (put B i (node ∷ B i)) × (htable_lookup base key bits h' ≡ node)
unfolding htable_insert htable_lookup slot insert_at
htable_insert-IsTable h base key bits B node size t new =
    let i = hash_64 key bits in
    (insert_at-IsTable h base (2 ^ bits) B i node t (slot_index-lt key bits size) new, ground arith)

-- `htable_delete` of a node takes it off its chain and leaves the order of the others and the other
-- chains.
pub htable_delete-IsTable :
    (h : Htable) (base n : ℕ) (B : ℕ → List ℕ) (i : ℕ) (xs : List ℕ) (x : ℕ) (ys : List ℕ)
    → IsTable h base n B
    → i < n
    → B i ≡ xs ++ (x ∷ ys)
    → IsTable (htable_delete x h) base n (put B i (xs ++ ys))
htable_delete-IsTable h base n B i xs x ys t l e =
    delete-IsTable h base n B i xs x ys t l (record { parts = e })

-- The pointers of a node that is not in the table do not matter to it.
pub clear-IsTable :
    (h : Htable) (base n : ℕ) (B : ℕ → List ℕ) (node : ℕ)
    → IsTable h base n B
    → IsNew base n B node
    → IsTable (set_pprev node 0 (set_next node 0 h)) base n B
clear-IsTable h base n B node t new = record {
  chain = λ i l.
      let h' = set_pprev node 0 (set_next node 0 h) in
      let ne = new.outside i l in
      Bucket-frame h h' (base + i) (B i) (t.chain i l) (ground (arith, ne))
        (All-both (λ x a _. ground (arith, a)) (B i) (new.fresh i l) (new.fresh i l))
        (All-both (λ x a _. ground (arith, a)) (B i) (new.fresh i l) (new.fresh i l));
  distinct = t.distinct;
  nodes = t.nodes;
  outside = t.outside;
  apart = t.apart;
}
