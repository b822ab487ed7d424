-- ===== src/Links/Deletes.antt =====
-- kernel/src/list.h: `list_delete` takes a node off its list and leaves it a list of its own.
use beeos.Prelude.{
  ℕ, ◌≡◌, sym, ◌∙◌, ◌≢◌, List, [], ◌∷◌, ◌++◌, All, All-append, All-both, append-nil, arith, true,
}
use beeos.Links.{Links, list_delete, list_empty}
use beeos.Links.Rings.{Chain, Fresh, Distinct, IsRing, prev-All, Chain-frame}

-- The memory without the node `x` between `p` and `n`.
record Without (h h' : Links) (p x n : ℕ) : Type 0 where
  x_next : h'.next x ≡ x
  x_prev : h'.prev x ≡ x
  p_next : h'.next p ≡ n
  n_prev : h'.prev n ≡ p
  nexts : (q : ℕ) → q ≢ p → q ≢ x → h'.next q ≡ h.next q
  prevs : (q : ℕ) → q ≢ n → q ≢ x → h'.prev q ≡ h.prev q

delete-Without :
    (h : Links) (x : ℕ)
    → h.prev x ≢ x
    → h.next x ≢ x
    → Without h (list_delete x h) (h.prev x) x (h.next x)
unfolding list_delete
delete-Without h x np nn = record {
  x_next = ground arith;
  x_prev = ground arith;
  p_next = ground arith;
  n_prev = ground arith;
  nexts = λ q a b. ground arith;
  prevs = λ q a b. ground arith;
}

-- The two parts of a chain around one of its nodes.
pub Chain-split :
    (h : Links) (a : ℕ) (xs : List ℕ) (x : ℕ) (ys : List ℕ) (b : ℕ)
    → Chain h a (xs ++ (x ∷ ys)) b
    → Chain h a xs x × Chain h x ys b
unfolding Chain
Chain-split h a [] x ys b (j, c) = (j, c)
Chain-split h a (z ∷ zs) x ys b (j, c) =
    let (front, back) = Chain-split h z zs x ys b c in ((j, front), back)

pub Chain-append :
    (h : Links) (a : ℕ) (xs : List ℕ) (y : ℕ) (ys : List ℕ) (b : ℕ)
    → Chain h a xs y
    → Chain h y ys b
    → Chain h a (xs ++ (y ∷ ys)) b
unfolding Chain
Chain-append h a [] y ys b j c = (j, c)
Chain-append h a (z ∷ zs) y ys b (j, front) back = (j, Chain-append h z zs y ys b front back)

-- The part in front of the node leads past it.
Chain-past :
    (h h' : Links) (n a : ℕ) (xs : List ℕ) (x : ℕ)
    → Chain h a xs x
    → Distinct (a ∷ xs)
    → Fresh x (a ∷ xs)
    → Fresh n xs
    → Without h h' (h.prev x) x n
    → Chain h' a xs n
unfolding Chain Distinct
Chain-past h h' n a [] x c d fx fn w = record {
  forth = rw c.back at w.p_next;
  back = w.n_prev ∙ c.back;
}
Chain-past h h' n a (z ∷ zs) x (j, c) (da, d) (ax, (zx, fx)) (zn, fn) w = (
  record {
    forth = w.nexts a (λ e. prev-All h (λ y. y ≢ a) z zs x c da.0 da.1 (sym e)) ax ∙ j.forth;
    back = w.prevs z zn zx ∙ j.back;
  },
  Chain-past h h' n z zs x c d (zx, fx) fn w,
)

pub Fresh-append :
    (n : ℕ) (xs : List ℕ) (x : ℕ) (ys : List ℕ)
    → Fresh n (xs ++ (x ∷ ys))
    → Fresh n xs × (x ≢ n) × Fresh n ys
Fresh-append n [] x ys (ne, f) = (tt, ne, f)
Fresh-append n (z ∷ zs) x ys (ne, f) =
    let (front, at, back) = Fresh-append n zs x ys f in ((ne, front), at, back)

-- What the nodes of a list without repetitions say of the two parts around one of them.
pub record Parted (xs : List ℕ) (x : ℕ) (ys : List ℕ) : Type 0 where
  pub front : Distinct xs
  pub front_x : Fresh x xs
  pub back : Distinct ys
  pub back_x : Fresh x ys
  pub apart : All (λ y. Fresh y xs) ys
  pub joined : Distinct (xs ++ ys)

pub Distinct-Parted :
    (xs : List ℕ) (x : ℕ) (ys : List ℕ) → Distinct (xs ++ (x ∷ ys)) → Parted xs x ys
unfolding Distinct
Distinct-Parted [] x ys (f, d) = record {
  front = tt;
  front_x = tt;
  back = d;
  back_x = f;
  apart = All-both (λ y p q. tt) ys f f;
  joined = d;
}
Distinct-Parted (z ∷ zs) x ys (f, d) =
    let (fz, at, fy) = Fresh-append z zs x ys f in
    let r = Distinct-Parted zs x ys d in
    record {
      front = (fz, r.front);
      front_x = ((λ e. at (sym e)), r.front_x);
      back = r.back;
      back_x = r.back_x;
      apart = All-both (λ y ne fresh. ((λ e. ne (sym e)), fresh)) ys fy r.apart;
      joined = (All-append (λ y. y ≢ z) zs ys fz fy, r.joined);
    }

Chain-delete :
    (h : Links) (a : ℕ) (xs : List ℕ) (x : ℕ) (ys : List ℕ)
    → Chain h a xs x
    → Chain h x ys a
    → Parted (a ∷ xs) x ys
    → Without h (list_delete x h) (h.prev x) x (h.next x) × Chain (list_delete x h) a (xs ++ ys) a
unfolding Chain Distinct
Chain-delete h a xs x [] front j p =
    let behind = prev-All h (λ q. q ≢ x) a xs x front p.front_x.0 p.front_x.1 in
    let w = delete-Without h x behind (λ e. p.front_x.0 (sym j.forth ∙ e)) in
    let w' : Without h (list_delete x h) (h.prev x) x a = rw j.forth at w in
    (
      w,
      rw append-nil (Chain-past h (list_delete x h) a a xs x front p.front p.front_x p.front.0 w'),
    )
Chain-delete h a xs x (y ∷ ys) front (j, c) p =
    let h' = list_delete x h in
    let behind = prev-All h (λ q. q ≢ x) a xs x front p.front_x.0 p.front_x.1 in
    let ((ay, fy), rest_apart) = p.apart in
    let w = delete-Without h x behind (λ e. p.back_x.0 (sym j.forth ∙ e)) in
    let w' : Without h h' (h.prev x) x y = rw j.forth at w in
    let before_y = prev-All h (λ q. q ≢ y) a xs x front ay fy in
    let stays =
      Chain-frame h h' y ys a c (w'.nexts y (λ e. before_y (sym e)) p.back_x.0)
        (All-both
          (λ q fresh ne.
            w'.nexts q (λ e. prev-All h (λ z. z ≢ q) a xs x front fresh.0 fresh.1 (sym e)) ne)
          ys rest_apart p.back_x.1)
        (All-both (λ q. w'.prevs q) ys p.back.0 p.back_x.1) (w'.prevs a ay p.front_x.0) in
    (w, Chain-append h' a xs y ys a (Chain-past h h' y a xs x front p.front p.front_x fy w') stays)

-- `list_delete` of a node of a list leaves the list of the others, in their order, and the node a
-- list of its own that is empty.
pub delete-IsRing :
    (h : Links) (a : ℕ) (xs : List ℕ) (x : ℕ) (ys : List ℕ)
    → IsRing h a (xs ++ (x ∷ ys))
    → IsRing (list_delete x h) a (xs ++ ys)
      × IsRing (list_delete x h) x []
      × (list_empty x (list_delete x h) ≡ true)
unfolding Chain Distinct list_empty
delete-IsRing h a xs x ys r =
    let (front, back) = Chain-split h a xs x ys a r.chain in
    let p = Distinct-Parted (a ∷ xs) x ys r.distinct in
    let (w, c) = Chain-delete h a xs x ys front back p in
    (
      record { chain = c; distinct = p.joined },
      record { chain = record { forth = w.x_next; back = w.x_prev }; distinct = (tt, tt) },
      ground (arith, w.x_next),
    )
