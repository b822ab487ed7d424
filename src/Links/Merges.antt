-- ===== src/Links/Merges.antt =====
-- kernel/src/list.h: `list_merge` makes one list of two.
use beeos.Prelude.{ℕ, ◌≡◌, sym, ◌∙◌, ◌≢◌, List, [], ◌∷◌, ◌++◌, All, All-both, arith}
use beeos.Links.{Links, list_merge}
use beeos.Links.Rings.{Chain, Fresh, Distinct, IsRing, prev-All}
use beeos.Links.Deletes.{Distinct-Parted, Chain-append}

-- A chain whose last link is led to another node.
Chain-retarget :
    (h h' : Links) (e n a : ℕ) (xs : List ℕ)
    → Chain h a xs e
    → Distinct (a ∷ xs)
    → h'.next (h.prev e) ≡ n
    → h'.prev n ≡ h.prev e
    → All (λ q. q ≢ h.prev e → h'.next q ≡ h.next q) (a ∷ xs)
    → All (λ q. h'.prev q ≡ h.prev q) xs
    → Chain h' a xs n
unfolding Chain Distinct
Chain-retarget h h' e n a [] c d to from (na, ns) ps = record {
  forth = rw c.back at to;
  back = from ∙ c.back;
}
Chain-retarget h h' e n a (x ∷ xs) (j, c) (da, d) to from (na, ns) (px, ps) = (
  record {
    forth = na (λ k. prev-All h (λ y. y ≢ a) x xs e c da.0 da.1 (sym k)) ∙ j.forth;
    back = px ∙ j.back;
  },
  Chain-retarget h h' e n x xs c d to from ns ps,
)

-- The memory after a merge, with the two last nodes.
record Merged (h h' : Links) (a b : ℕ) : Type 0 where
  to_b : h'.next (h.prev a) ≡ b
  to_a : h'.next (h.prev b) ≡ a
  a_prev : h'.prev a ≡ h.prev b
  b_prev : h'.prev b ≡ h.prev a
  nexts : (q : ℕ) → q ≢ h.prev a → q ≢ h.prev b → h'.next q ≡ h.next q
  prevs : (q : ℕ) → q ≢ a → q ≢ b → h'.prev q ≡ h.prev q

merge-Merged : (h : Links) (a b : ℕ) → a ≢ b → h.prev a ≢ h.prev b → Merged h (list_merge a b h) a b
unfolding list_merge
merge-Merged h a b ne np = record {
  to_b = ground arith;
  to_a = ground arith;
  a_prev = ground arith;
  b_prev = ground arith;
  nexts = λ q k l. ground arith;
  prevs = λ q k l. ground arith;
}

-- `list_merge` of two lists without a common node puts the second one, with its head, behind the
-- elements of the first.
pub merge-IsRing :
    (h : Links) (a : ℕ) (xs : List ℕ) (b : ℕ) (ys : List ℕ)
    → IsRing h a xs
    → IsRing h b ys
    → Distinct (a ∷ (xs ++ (b ∷ ys)))
    → IsRing (list_merge a b h) a (xs ++ (b ∷ ys))
unfolding Distinct
merge-IsRing h a xs b ys ra rb d =
    let p = Distinct-Parted (a ∷ xs) b ys d in
    let h' = list_merge a b h in
    -- the last nodes stand in their own lists
    let last_b : Fresh (h.prev b) (a ∷ xs) =
      prev-All h (λ q. Fresh q (a ∷ xs)) b ys b rb.chain p.front_x p.apart in
    let last_a : Fresh (h.prev a) (b ∷ ys) = (
      (λ e. prev-All h (λ q. q ≢ b) a xs a ra.chain p.front_x.0 p.front_x.1 (sym e)),
      All-both (λ y f g. λ e. prev-All h (λ q. q ≢ y) a xs a ra.chain f.0 f.1 (sym e)) ys p.apart
          p.back_x,
    ) in
    let w =
      merge-Merged h a b p.front_x.0
        (prev-All h (λ q. q ≢ h.prev b) a xs a ra.chain last_b.0 last_b.1) in
    record {
      chain =
          Chain-append h' a xs b ys a
            (Chain-retarget h h' a b a xs ra.chain ra.distinct w.to_b w.b_prev
              (All-both (λ q ne _. λ k. w.nexts q k ne) (a ∷ xs) last_b last_b)
              (All-both (λ q. w.prevs q) xs ra.distinct.0 p.front_x.1))
            (Chain-retarget h h' b a b ys rb.chain rb.distinct w.to_a w.a_prev
              (All-both (λ q ne _. λ k. w.nexts q ne k) (b ∷ ys) last_a last_a)
              (All-both (λ q f ne. w.prevs q (λ k. f.0 (sym k)) ne) ys p.apart p.back_x));
      distinct = d;
    }
