-- ===== src/Links/Rings.antt =====
-- The rings that nodes of kernel/src/list.h form.
use beeos.Prelude.{ℕ, ◌≡◌, ◌≢◌, ◌∙◌, List, [], ◌∷◌, All, arith}
use beeos.Links.{Links, list_init}

-- Both fields between neighbours.
pub record Joined (h : Links) (a b : ℕ) : Type 0 where
  pub forth : h.next a ≡ b
  pub back : h.prev b ≡ a

-- From `a` the fields lead through `xs` to `b`.
unfoldable pub Chain : Links → ℕ → List ℕ → ℕ → Type 0
Chain h a [] b = Joined h a b
Chain h a (x ∷ xs) b = Joined h a x × Chain h x xs b

abbrev pub Fresh : ℕ → List ℕ → Type 0
Fresh n xs = All (λ x. x ≢ n) xs

unfoldable pub Distinct : List ℕ → Type 0
Distinct [] = Unit
Distinct (x ∷ xs) = Fresh x xs × Distinct xs

-- The list with the head `a` and the elements `xs`.
pub record IsRing (h : Links) (a : ℕ) (xs : List ℕ) : Type 0 where
  pub chain : Chain h a xs a
  pub distinct : Distinct (a ∷ xs)

-- What holds of all nodes of a chain holds of the one in front of its end.
pub prev-All :
    (h : Links) (P : ℕ → Type 0) (a : ℕ) (xs : List ℕ) (b : ℕ)
    → Chain h a xs b
    → P a
    → All P xs
    → P (h.prev b)
unfolding Chain
prev-All h P a [] b c pa all = rw c.back pa
prev-All h P a (x ∷ xs) b (j, c) pa (px, all) = prev-All h P x xs b c px all

-- A chain stays where its nodes' fields do.
pub Chain-frame :
    (h h' : Links) (a : ℕ) (xs : List ℕ) (b : ℕ)
    → Chain h a xs b
    → h'.next a ≡ h.next a
    → All (λ x. h'.next x ≡ h.next x) xs
    → All (λ x. h'.prev x ≡ h.prev x) xs
    → h'.prev b ≡ h.prev b
    → Chain h' a xs b
unfolding Chain
Chain-frame h h' a [] b c na ns ps pb = record { forth = na ∙ c.forth; back = pb ∙ c.back }
Chain-frame h h' a (x ∷ xs) b (j, c) na (nx, ns) (px, ps) pb =
    (record { forth = na ∙ j.forth; back = px ∙ j.back }, Chain-frame h h' x xs b c nx ns ps pb)

-- A list that was just initialized is empty.
pub init-IsRing : (h : Links) (a : ℕ) → IsRing (list_init a h) a []
unfolding Chain Distinct list_init
init-IsRing h a = record {
  chain = record { forth = ground arith; back = ground arith };
  distinct = (tt, tt);
}
