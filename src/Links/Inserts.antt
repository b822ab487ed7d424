-- ===== src/Links/Inserts.antt =====
-- kernel/src/list.h: `list_insert_before` and `list_insert_after` put a node at the end and at the
-- front of a list.
use beeos.Prelude.{ℕ, ◌≡◌, sym, ◌∙◌, ◌≢◌, List, [], ◌∷◌, ◌++◌, All-append, All-both, arith}
use beeos.Links.{Links, list_insert_after, list_insert_before}
use beeos.Links.Rings.{Chain, Fresh, Distinct, IsRing, prev-All, Chain-frame}

-- The memory with a node put between `p` and `b`.
pub record Between (h h' : Links) (p node b : ℕ) : Type 0 where
  pub node_next : h'.next node ≡ b
  pub node_prev : h'.prev node ≡ p
  pub p_next : h'.next p ≡ node
  pub b_prev : h'.prev b ≡ node
  pub nexts : (q : ℕ) → q ≢ p → q ≢ node → h'.next q ≡ h.next q
  pub prevs : (q : ℕ) → q ≢ b → q ≢ node → h'.prev q ≡ h.prev q

pub insert_before-Between :
    (h : Links) (list node : ℕ)
    → node ≢ list
    → node ≢ h.prev list
    → Between h (list_insert_before list node h) (h.prev list) node list
unfolding list_insert_before
insert_before-Between h list node ne np = record {
  node_next = ground arith;
  node_prev = ground arith;
  p_next = ground arith;
  b_prev = ground arith;
  nexts = λ q a b. ground arith;
  prevs = λ q a b. ground arith;
}

insert_after-Between :
    (h : Links) (list node : ℕ)
    → node ≢ list
    → node ≢ h.next list
    → Between h (list_insert_after list node h) list node (h.next list)
unfolding list_insert_after
insert_after-Between h list node ne np = record {
  node_next = ground arith;
  node_prev = ground arith;
  p_next = ground arith;
  b_prev = ground arith;
  nexts = λ q a b. ground arith;
  prevs = λ q a b. ground arith;
}

-- A node that is put in front of the end of a chain.
pub Chain-snoc :
    (h h' : Links) (node a : ℕ) (xs : List ℕ) (b : ℕ)
    → Chain h a xs b
    → Distinct (a ∷ xs)
    → Fresh b xs
    → Fresh node (a ∷ xs)
    → Between h h' (h.prev b) node b
    → Chain h' a (xs ++ (node ∷ [])) b
unfolding Chain Distinct
Chain-snoc h h' node a [] b c d fb fn w = (
  record { forth = rw c.back at w.p_next; back = w.node_prev ∙ c.back },
  record { forth = w.node_next; back = w.b_prev },
)
Chain-snoc h h' node a (x ∷ xs) b (j, c) (da, d) (xb, fb) (an, (xn, fn)) w = (
  record {
    forth = w.nexts a (λ e. prev-All h (λ y. y ≢ a) x xs b c da.0 da.1 (sym e)) an ∙ j.forth;
    back = w.prevs x xb xn ∙ j.back;
  },
  Chain-snoc h h' node x xs b c d fb (xn, fn) w,
)

Fresh-snoc : (n m : ℕ) (xs : List ℕ) → Fresh n xs → m ≢ n → Fresh n (xs ++ (m ∷ []))
Fresh-snoc n m xs f ne = All-append (λ x. x ≢ n) xs (m ∷ []) f (ne, tt)

Distinct-snoc : (n : ℕ) (xs : List ℕ) → Distinct xs → Fresh n xs → Distinct (xs ++ (n ∷ []))
unfolding Distinct
Distinct-snoc n [] d f = (tt, tt)
Distinct-snoc n (x ∷ xs) (dx, d) (ne, f) =
    (Fresh-snoc x n xs dx (λ e. ne (sym e)), Distinct-snoc n xs d f)

-- `list_insert_before` at the head of a list puts a node that is not on it behind its elements.
pub insert_before-IsRing :
    (h : Links) (a node : ℕ) (xs : List ℕ)
    → IsRing h a xs
    → Fresh node (a ∷ xs)
    → IsRing (list_insert_before a node h) a (xs ++ (node ∷ []))
unfolding Distinct
insert_before-IsRing h a node xs r (an, fn) = record {
  chain =
      Chain-snoc h (list_insert_before a node h) node a xs a r.chain r.distinct r.distinct.0
        (an, fn)
        (insert_before-Between h a node (λ e. an (sym e))
          (λ e. prev-All h (λ y. y ≢ node) a xs a r.chain an fn (sym e)));
  distinct = Distinct-snoc node (a ∷ xs) r.distinct (an, fn);
}

-- `list_insert_after` at the head of a list puts a node that is not on it in front of its elements.
pub insert_after-IsRing :
    (h : Links) (a node : ℕ) (xs : List ℕ)
    → IsRing h a xs
    → Fresh node (a ∷ xs)
    → IsRing (list_insert_after a node h) a (node ∷ xs)
unfolding Chain Distinct
insert_after-IsRing h a node [] r (an, fn) =
    let w = insert_after-Between h a node (λ e. an (sym e)) (λ e. an (sym (e ∙ r.chain.forth))) in
    record {
      chain = (
        record { forth = w.p_next; back = w.node_prev },
        record { forth = w.node_next ∙ r.chain.forth; back = rw r.chain.forth at w.b_prev },
      );
      distinct = (((λ e. an (sym e)), tt), (tt, tt));
    }
insert_after-IsRing h a node (x ∷ xs) r (an, (xn, fn)) =
    let e = r.chain.0.forth in
    let h' = list_insert_after a node h in
    let w = insert_after-Between h a node (λ k. an (sym k)) (λ k. xn (sym (k ∙ e))) in
    let ((xa, fa), (dx, d)) = r.distinct in
    record {
      chain = (
        record { forth = w.p_next; back = w.node_prev },
        (
          record { forth = w.node_next ∙ e; back = rw e at w.b_prev },
          Chain-frame h h' x xs a r.chain.1 (w.nexts x xa xn) (All-both (λ y. w.nexts y) xs fa fn)
              (All-both (λ y ne. w.prevs y (λ k. ne (k ∙ e))) xs dx fn)
              (w.prevs a (λ k. xa (sym (k ∙ e))) an),
        ),
      );
      distinct = (((λ k. an (sym k)), (xa, fa)), ((xn, fn), (dx, d)));
    }
