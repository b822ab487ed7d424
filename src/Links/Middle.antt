-- ===== src/Links/Middle.antt =====
-- kernel/src/list.h: `list_insert_before` at any node of a list, and the walk along its `next` fields.
use beeos.Prelude.{ℕ, ◌≡◌, sym, ◌≢◌, List, [], ◌∷◌, ◌++◌, append-nil, append_assoc, All-both}
use beeos.Links.{Links, list_insert_before}
use beeos.Links.Rings.{Chain, Fresh, Distinct, IsRing, prev-All, Chain-frame}
use beeos.Links.Inserts.{insert_before-Between, Chain-snoc, insert_before-IsRing}
use beeos.Links.Deletes.{Chain-split, Chain-append, Distinct-Parted, Fresh-append}

-- The node that a walk comes to where `ys` are left: the head at the end.
abbrev pub front : ℕ → List ℕ → ℕ
front a [] = a
front a (y ∷ ys) = y

pub next-front :
    (h : Links) (a : ℕ) (xs : List ℕ) (x : ℕ) (ys : List ℕ)
    → IsRing h a (xs ++ (x ∷ ys))
    → h.next x ≡ front a ys
unfolding Chain
next-front h a xs x [] r = (Chain-split h a xs x [] a r.chain).1.forth
next-front h a xs x (y ∷ ys) r = (Chain-split h a xs x (y ∷ ys) a r.chain).1.0.forth

pub next-head : (h : Links) (a : ℕ) (xs : List ℕ) → IsRing h a xs → h.next a ≡ front a xs
unfolding Chain
next-head h a [] r = r.chain.forth
next-head h a (x ∷ xs) r = r.chain.0.forth

-- A node of a list is not its head.
pub ne-head :
    (h : Links) (a : ℕ) (xs : List ℕ) (x : ℕ) (ys : List ℕ) → IsRing h a (xs ++ (x ∷ ys)) → x ≢ a
unfolding Distinct
ne-head h a xs x ys r = (Fresh-append a xs x ys r.distinct.0).1

Distinct-insert :
    (n : ℕ) (xs ys : List ℕ) → Distinct (xs ++ ys) → Fresh n (xs ++ ys) → Distinct (xs ++ (n ∷ ys))
unfolding Distinct
Distinct-insert n [] ys d f = (f, d)
Distinct-insert n (x ∷ xs) ys (dx, d) (ne, f) = (Fresh-insert xs dx, Distinct-insert n xs ys d f)
  where
    Fresh-insert : (zs : List ℕ) → Fresh x (zs ++ ys) → Fresh x (zs ++ (n ∷ ys))
    Fresh-insert [] g = ((λ e. ne (sym e)), g)
    Fresh-insert (z ∷ zs) (k, g) = (k, Fresh-insert zs g)

-- `list_insert_before` at the node where a walk has come to puts the new one between what it has
-- passed and what is left.
pub insert_before-middle :
    (h : Links) (a node : ℕ) (xs ys : List ℕ)
    → IsRing h a (xs ++ ys)
    → Fresh node (a ∷ (xs ++ ys))
    → IsRing (list_insert_before (front a ys) node h) a (xs ++ (node ∷ ys))
insert_before-middle h a node xs [] r f =
    rw append-nil at (insert_before-IsRing h a node (xs ++ []) r f)
insert_before-middle h a node xs (y ∷ ys) r (an, f) =
    let h' = list_insert_before y node h in
    let (before, behind) = Chain-split h a xs y ys a r.chain in
    let p = Distinct-Parted (a ∷ xs) y ys r.distinct in
    let (fx, yn, fy) = Fresh-append node xs y ys f in
    let last_ne_node = prev-All h (λ q. q ≢ node) a xs y before an fx in
    let w = insert_before-Between h y node (λ e. yn (sym e)) (λ e. last_ne_node (sym e)) in
    let started = Chain-snoc h h' node a xs y before p.front p.front_x.1 (an, fx) w in
    let last_ne = λ (q : ℕ) (g : Fresh q (a ∷ xs)). prev-All h (λ z. z ≢ q) a xs y before g.0 g.1 in
    let stays =
      Chain-frame h h' y ys a behind
        (w.nexts y (λ e. prev-All h (λ z. z ≢ y) a xs y before p.front_x.0 p.front_x.1 (sym e)) yn)
        (All-both (λ q g ne. w.nexts q (λ e. last_ne q g (sym e)) ne) ys p.apart fy)
        (All-both (λ q ne ne'. w.prevs q ne ne') ys p.back_x fy) (w.prevs a p.front_x.0 an) in
    record {
      chain = rw append_assoc at (Chain-append h' a (xs ++ (node ∷ [])) y ys a started stays);
      distinct = Distinct-insert node (a ∷ xs) (y ∷ ys) r.distinct (an, f);
    }
