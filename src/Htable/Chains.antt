-- ===== src/Htable/Chains.antt =====
-- kernel/src/htable.h: the nodes of one slot.
use beeos.Prelude.{ℕ, ◌≡◌, sym, ◌∙◌, ◌≢◌, List, [], ◌∷◌, ◌++◌, All, All-both, arith}
use beeos.Links.Rings.{Fresh, Distinct}
use beeos.Links.Deletes.{Fresh-append}
use beeos.Htable.{Htable, insert_at, htable_delete}

-- From the pointer at `c` the `next` pointers lead through `xs` to NULL, and back.
unfoldable pub Bucket : Htable → ℕ → List ℕ → Type 0
Bucket h c [] = h.next c ≡ 0
Bucket h c (x ∷ xs) = (h.next c ≡ x) × (h.pprev x ≡ c) × (x ≢ 0) × Bucket h x xs

-- A chain stays where its pointers do.
pub Bucket-frame :
    (h h' : Htable) (c : ℕ) (xs : List ℕ)
    → Bucket h c xs
    → h'.next c ≡ h.next c
    → All (λ x. h'.next x ≡ h.next x) xs
    → All (λ x. h'.pprev x ≡ h.pprev x) xs
    → Bucket h' c xs
unfolding Bucket
Bucket-frame h h' c [] b n ns ps = n ∙ b
Bucket-frame h h' c (x ∷ xs) (f, p, ne, b) n (nx, ns) (px, ps) =
    (n ∙ f, px ∙ p, ne, Bucket-frame h h' x xs b nx ns ps)

-- What `insert_at` leaves as it was.
record Kept (h h' : Htable) (i node first : ℕ) : Type 0 where
  next_i : h'.next i ≡ node
  next_node : h'.next node ≡ first
  pprev_node : h'.pprev node ≡ i
  nexts : (q : ℕ) → q ≢ i → q ≢ node → h'.next q ≡ h.next q
  pprevs : (q : ℕ) → q ≢ first → q ≢ node → h'.pprev q ≡ h.pprev q

insert_at-Kept :
    (h : Htable) (i node : ℕ)
    → node ≢ i
    → node ≢ h.next i
    → Kept h (insert_at i node h) i node (h.next i)
unfolding insert_at
insert_at-Kept h i node ne nn = record {
  next_i = ground arith;
  next_node = ground arith;
  pprev_node = ground arith;
  nexts = λ q a b. ground arith;
  pprevs = λ q a b. ground arith;
}

insert_at-first :
    (h : Htable) (i node : ℕ)
    → node ≢ i
    → h.next i ≢ 0
    → (insert_at i node h).pprev (h.next i) ≡ node
unfolding insert_at
insert_at-first h i node ne nz = ground arith

-- A node that is put in front of the chain of a slot.
pub insert_at-Bucket :
    (h : Htable) (i node : ℕ) (xs : List ℕ)
    → Bucket h i xs
    → Distinct xs
    → node ≢ i
    → node ≢ 0
    → Fresh node xs
    → Fresh i xs
    → Bucket (insert_at i node h) i (node ∷ xs)
unfolding Bucket Distinct
insert_at-Bucket h i node [] b d ne nz fn fi =
    let k = insert_at-Kept h i node ne (λ e. nz (e ∙ b)) in
    (k.next_i, k.pprev_node, nz, k.next_node ∙ b)
insert_at-Bucket h i node (x ∷ xs) (f, p, xz, b) (dx, d) ne nz (xn, fn) (xi, fi) =
    let h' = insert_at i node h in
    let k = insert_at-Kept h i node ne (λ e. xn (sym (e ∙ f))) in
    let first = insert_at-first h i node ne (λ e. xz (sym f ∙ e)) in
    (
      k.next_i,
      k.pprev_node,
      nz,
      (
        k.next_node ∙ f,
        rw f at first,
        xz,
        Bucket-frame h h' x xs b (k.nexts x xi xn) (All-both (λ q a c. k.nexts q a c) xs fi fn)
            (All-both (λ q a c. k.pprevs q (λ e. a (e ∙ f)) c) xs dx fn),
      ),
    )

-- Another chain is not touched.
pub insert_at-other :
    (h : Htable) (i node : ℕ) (xs : List ℕ) (c : ℕ) (ys : List ℕ)
    → Bucket h i xs
    → node ≢ i
    → node ≢ 0
    → Fresh node xs
    → Bucket h c ys
    → c ≢ i
    → c ≢ node
    → Fresh i ys
    → Fresh node ys
    → All (λ y. y ≢ 0) ys
    → All (λ y. Fresh y xs) ys
    → Bucket (insert_at i node h) c ys
unfolding Bucket
insert_at-other h i node [] c ys b ne nz fn by ci cn fi fy zs apart =
    let k = insert_at-Kept h i node ne (λ e. nz (e ∙ b)) in
    Bucket-frame h (insert_at i node h) c ys by (k.nexts c ci cn)
      (All-both (λ q a c. k.nexts q a c) ys fi fy)
      (All-both (λ q a c. k.pprevs q (λ e. a (e ∙ b)) c) ys zs fy)
insert_at-other h i node (x ∷ xs) c ys (f, p, xz, b) ne nz (xn, fn) by ci cn fi fy zs apart =
    let k = insert_at-Kept h i node ne (λ e. xn (sym (e ∙ f))) in
    Bucket-frame h (insert_at i node h) c ys by (k.nexts c ci cn)
      (All-both (λ q a c. k.nexts q a c) ys fi fy)
      (All-both (λ q a c. k.pprevs q (λ e. a.0 (sym (e ∙ f))) c) ys apart fy)

-- What holds of the pointer at the start and of all nodes in front of `x` holds of the one that
-- leads to it.
pprev-All :
    (h : Htable) (P : ℕ → Type 0) (c : ℕ) (xs : List ℕ) (x : ℕ) (ys : List ℕ)
    → Bucket h c (xs ++ (x ∷ ys))
    → P c
    → All P xs
    → P (h.pprev x)
unfolding Bucket
pprev-All h P c [] x ys (f, p, ne, b) pc all = rw p pc
pprev-All h P c (z ∷ zs) x ys (f, p, ne, b) pc (pz, all) = pprev-All h P z zs x ys b pz all

record Without (h h' : Htable) (p n : ℕ) : Type 0 where
  next_p : h'.next p ≡ n
  pprev_n : n ≢ 0 → h'.pprev n ≡ p
  nexts : (q : ℕ) → q ≢ p → h'.next q ≡ h.next q
  pprevs : (q : ℕ) → q ≢ n → h'.pprev q ≡ h.pprev q

delete-Without : (h : Htable) (x : ℕ) → Without h (htable_delete x h) (h.pprev x) (h.next x)
unfolding htable_delete
delete-Without h x = record {
  next_p = ground arith;
  pprev_n = λ ne. ground (arith, ne);
  nexts = λ q a. ground (arith, a);
  pprevs = λ q a. ground (arith, a);
}

-- A chain that is apart from the pointer that changes and from the next node is not touched.
Bucket-Without :
    (h h' : Htable) (p n c : ℕ) (ys : List ℕ)
    → Without h h' p n
    → Bucket h c ys
    → c ≢ p
    → All (λ y. y ≢ p) ys
    → All (λ y. y ≢ n) ys
    → Bucket h' c ys
Bucket-Without h h' p n c ys w b ne np nn =
    Bucket-frame h h' c ys b (w.nexts c ne) (All-both (λ q a _. w.nexts q a) ys np np)
      (All-both (λ q a _. w.pprevs q a) ys nn nn)

-- The chain in front of the node and behind it.
behind-Bucket :
    (h h' : Htable) (c x : ℕ) (ys : List ℕ)
    → Without h h' c (h.next x)
    → Bucket h x ys
    → x ≢ c
    → All (λ y. y ≢ c) ys
    → Distinct ys
    → Bucket h' c ys
unfolding Bucket Distinct
behind-Bucket h h' c x [] w b ne nc d = w.next_p ∙ b
behind-Bucket h h' c x (y ∷ ys) w (f, p, yz, b) ne (yc, nc) (dy, d) = (
  w.next_p ∙ f,
  rw f at (w.pprev_n (λ e. yz (sym f ∙ e))),
  yz,
  Bucket-Without h h' c (h.next x) y ys w b yc nc (All-both (λ q a _. λ e. a (e ∙ f)) ys dy dy),
)

-- A node that is not behind `x` is not the next one.
ne-next :
    (h : Htable) (c : ℕ) (xs : List ℕ) (x : ℕ) (ys : List ℕ) (q : ℕ)
    → Bucket h c (xs ++ (x ∷ ys))
    → q ≢ 0
    → Fresh q ys
    → q ≢ h.next x
unfolding Bucket
ne-next h c [] x [] q (f, p, nz, b) qz fq = λ e. qz (e ∙ b)
ne-next h c [] x (y ∷ ys) q (f, p, nz, b) qz fq = λ e. fq.0 (sym (e ∙ b.0))
ne-next h c (z ∷ zs) x ys q (f, p, nz, b) qz fq = ne-next h z zs x ys q b qz fq

Fresh-parts :
    (q : ℕ) (xs : List ℕ) (x : ℕ) (ys : List ℕ) → Fresh q (xs ++ (x ∷ ys)) → Fresh q xs × Fresh q ys
Fresh-parts q xs x ys f = let (front, at, back) = Fresh-append q xs x ys f in (front, back)

-- `htable_delete` of a node of a chain leaves the chain of the others.
pub delete-Bucket :
    (h : Htable) (c : ℕ) (xs : List ℕ) (x : ℕ) (ys : List ℕ)
    → Bucket h c (xs ++ (x ∷ ys))
    → Distinct (c ∷ (xs ++ (x ∷ ys)))
    → Bucket (htable_delete x h) c (xs ++ ys)
unfolding Bucket Distinct
delete-Bucket h c [] x ys (f, p, nz, b) ((xc, fc), (fx, d)) =
    behind-Bucket h (htable_delete x h) c x ys (rw p at (delete-Without h x)) b xc fc d
delete-Bucket h c (z ∷ zs) x ys (f, p, nz, b) ((zc, fc), (fz, d)) =
    let w = delete-Without h x in
    let (front_c, back_c) = Fresh-parts c zs x ys fc in
    let (front_z, back_z) = Fresh-parts z zs x ys fz in
    (
      w.nexts c (λ e. pprev-All h (λ q. q ≢ c) z zs x ys b zc front_c (sym e)) ∙ f,
      w.pprevs z (ne-next h z zs x ys z b nz back_z) ∙ p,
      nz,
      delete-Bucket h z zs x ys b (fz, d),
    )

-- The chain of another slot is not touched.
pub delete-other :
    (h : Htable) (c : ℕ) (xs : List ℕ) (x : ℕ) (ys : List ℕ) (d : ℕ) (zs : List ℕ)
    → Bucket h c (xs ++ (x ∷ ys))
    → Bucket h d zs
    → d ≢ c
    → All (λ z. z ≢ 0) zs
    → All (λ z. z ≢ c) zs
    → Fresh d (xs ++ (x ∷ ys))
    → All (λ z. Fresh z (xs ++ (x ∷ ys))) zs
    → Bucket (htable_delete x h) d zs
delete-other h c xs x ys d zs b bz dc nz nc fd apart =
    let w = delete-Without h x in
    Bucket-Without h (htable_delete x h) (h.pprev x) (h.next x) d zs w bz
      (λ e.
        pprev-All h (λ q. q ≢ d) c xs x ys b (λ k. dc (sym k)) (Fresh-parts d xs x ys fd).0 (sym e))
      (All-both
        (λ z ne fresh e.
          pprev-All h (λ q. q ≢ z) c xs x ys b (λ k. ne (sym k)) (Fresh-parts z xs x ys fresh).0
            (sym e))
        zs nc apart)
      (All-both (λ z ne fresh. ne-next h c xs x ys z b ne (Fresh-parts z xs x ys fresh).1) zs nz
        apart)
