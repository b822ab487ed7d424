-- ===== src/Strings/Texts/Ends.antt =====
-- libc/src/string: strlen, strcpy, strcat and strcmp on texts.
use beeos.Prelude.{
  ℕ, zero, suc, ◌+◌, ◌≤◌, ◌<◌, ◌≡◌, refl, sym, ◌∙◌, ◌≢◌, ◌⊎◌, inl, inr, true, false, ◌&&◌, not,
  some, List, [], ◌∷◌, ◌++◌, length, length-append, arith, ◌==◌, Bool-cases,
}
use mathlib.Core.Logic.{◌↔◌}
use beeos.Prelude.Int.{ℤ, pos}
use beeos.Strings.{poke}
use beeos.Strings.Texts.{strlen_from, strcpy_from, strcpy, strcat, strcmp, char_diff}

-- The bytes from `s` on are `cs`, without a 0, and then a 0.
unfoldable pub Text : (ℕ → ℕ) → ℕ → List ℕ → Type 0
Text mem s [] = mem s ≡ 0
Text mem s (c ∷ cs) = (mem s ≡ c) × (c ≢ 0) × Text mem (s + 1) cs

pub Text-move : (mem : ℕ → ℕ) (p q : ℕ) (cs : List ℕ) → p ≡ q → Text mem p cs → Text mem q cs
Text-move mem p q cs e t = rw e at t

-- A text stays where its bytes do.
pub Text-frame :
    (mem mem' : ℕ → ℕ) (s : ℕ) (cs : List ℕ)
    → Text mem s cs
    → ((q : ℕ) → s ≤ q → q ≤ s + length cs → mem' q ≡ mem q)
    → Text mem' s cs
unfolding Text
Text-frame mem mem' s [] t same = same s (omega arith) (omega arith) ∙ t
Text-frame mem mem' s (c ∷ cs) (e, nz, t) same = (
  same s (omega arith) (omega arith) ∙ e,
  nz,
  Text-frame mem mem' (s + 1) cs t (λ q a b. same q (omega (arith, a)) (omega (arith, b))),
)

pub strlen_from-Text :
    (fuel s i : ℕ) (mem : ℕ → ℕ) (cs : List ℕ)
    → Text mem (s + i) cs
    → length cs < fuel
    → strlen_from fuel s i mem ≡ some (i + length cs)
unfolding strlen_from Text
strlen_from-Text zero s i mem cs t l = absurd (omega (arith, l))
strlen_from-Text (suc n) s i mem [] t l = ground (arith, t)
strlen_from-Text (suc n) s i mem (c ∷ cs) (e, nz, t) l =
    let rest =
      strlen_from-Text n s (i + 1) mem cs (Text-move mem _ _ cs (omega arith) t)
        (omega (arith, l)) in
    let more : (mem (s + i) == 0) ≡ false = ground (arith, e, nz) in
    let len : i + 1 + length cs ≡ i + length (c ∷ cs) = omega arith in rw (more, rest, len) refl

-- What a copy of the text `cs` to `dst` leaves.
pub record Copied (mem mem' : ℕ → ℕ) (dst : ℕ) (cs : List ℕ) : Type 0 where
  pub text : Text mem' dst cs
  pub below : (q : ℕ) → q < dst → mem' q ≡ mem q
  pub above : (q : ℕ) → dst + length cs < q → mem' q ≡ mem q

-- The two texts do not overlap.
abbrev pub Apart : ℕ → ℕ → ℕ → Type 0
Apart dst src len = (dst + len < src) ⊎ (src + len < dst)

strcpy_from-Copied :
    (fuel dst src i : ℕ) (mem : ℕ → ℕ) (cs : List ℕ)
    → Text mem (src + i) cs
    → Apart (dst + i) (src + i) (length cs)
    → length cs < fuel
    → (mem' : ℕ → ℕ) × (strcpy_from fuel dst src i mem ≡ some mem') × Copied mem mem' (dst + i) cs
unfolding strcpy_from Text
strcpy_from-Copied zero dst src i mem cs t a l = absurd (omega (arith, l))
strcpy_from-Copied (suc n) dst src i mem [] t a l = (
  poke (dst + i) 0 mem,
  ground (arith, t),
  record {
    text = ground arith;
    below = λ q lt. ground (arith, lt);
    above = λ q lt. ground (arith, lt);
  },
)
strcpy_from-Copied (suc n) dst src i mem (c ∷ cs) (e, nz, t) a l =
    let mem1 = poke (dst + i) (mem (src + i)) mem in
    let t1 =
      Text-frame mem mem1 (src + (i + 1)) cs (Text-move mem _ _ cs (omega arith) t)
        (λ q lo hi. kept q lo hi) in
    let (mem', copies, r) =
      strcpy_from-Copied n dst src (i + 1) mem1 cs t1 apart (omega (arith, l)) in
    let more : (mem (src + i) == 0) ≡ false = ground (arith, e, nz) in
    let at : mem1 (dst + i) ≡ c = ground (arith, e) in
    (
      mem',
      rw (more, copies) refl,
      record {
        text =
            (r.below (dst + i) (omega arith) ∙ at, nz, Text-move mem' _ _ cs (omega arith) r.text);
        below = λ q lt. r.below q (omega (arith, lt)) ∙ ground (arith, lt);
        above = λ q lt. r.above q (omega (arith, lt)) ∙ ground (arith, lt);
      },
    )
  where
    apart : Apart (dst + (i + 1)) (src + (i + 1)) (length cs)
    apart = elim a [ inl x ↦ inl (omega (arith, x)) | inr x ↦ inr (omega (arith, x)) ]

    kept :
        (q : ℕ)
        → src + (i + 1) ≤ q
        → q ≤ src + (i + 1) + length cs
        → poke (dst + i) (mem (src + i)) mem q ≡ mem q
    kept q lo hi = elim a [ inl x ↦ ground (arith, x, lo, hi) | inr x ↦ ground (arith, x, lo, hi) ]

strcpy-at :
    (fuel dst src : ℕ) (mem : ℕ → ℕ) (cs : List ℕ)
    → Text mem src cs
    → Apart dst src (length cs)
    → length cs < fuel
    → (mem' : ℕ → ℕ) × (strcpy fuel dst src mem ≡ some mem') × Copied mem mem' dst cs
unfolding strcpy
strcpy-at fuel dst src mem cs t a l =
    let here : dst + 0 ≡ dst = omega arith in
    let (mem', copies, r) =
      strcpy_from-Copied fuel dst src 0 mem cs (Text-move mem _ _ cs (omega arith) t) at_zero l in
    (mem', copies, rw here at r)
  where
    at_zero : Apart (dst + 0) (src + 0) (length cs)
    at_zero = elim a [ inl x ↦ inl (omega (arith, x)) | inr x ↦ inr (omega (arith, x)) ]

Text-append :
    (mem mem' : ℕ → ℕ) (s : ℕ) (bs cs : List ℕ)
    → Text mem s bs
    → ((q : ℕ) → q < s + length bs → mem' q ≡ mem q)
    → Text mem' (s + length bs) cs
    → Text mem' s (bs ++ cs)
unfolding Text
Text-append mem mem' s [] cs t same u = Text-move mem' _ _ cs (omega arith) u
Text-append mem mem' s (b ∷ bs) cs (e, nz, t) same u = (
  same s (omega arith) ∙ e,
  nz,
  Text-append mem mem' (s + 1) bs cs t (λ q lt. same q (omega (arith, lt)))
      (Text-move mem' _ _ cs (omega arith) u),
)

-- With enough rounds for both texts, and room that does not overlap the second one, `strcat` leaves
-- the first text with the second behind it, and changes no byte in front of it or behind its 0.
pub strcat-Copied :
    (fuel dst src : ℕ) (mem : ℕ → ℕ) (bs cs : List ℕ)
    → Text mem dst bs
    → Text mem src cs
    → (dst + length bs + length cs < src) ⊎ (src + length cs < dst)
    → length bs < fuel
    → length cs < fuel
    → (mem' : ℕ → ℕ) × (strcat fuel dst src mem ≡ some mem') × Copied mem mem' dst (bs ++ cs)
unfolding strcat
strcat-Copied fuel dst src mem bs cs t u a lb lc =
    let found = strlen_from-Text fuel dst 0 mem bs (Text-move mem _ _ bs (omega arith) t) lb in
    let len : 0 + length bs ≡ length bs = omega arith in
    let (mem', copies, r) = strcpy-at fuel (dst + length bs) src mem cs u apart lc in
    (
      mem',
      rw (found, len, strcat) copies,
      record {
        text = Text-append mem mem' dst bs cs t (λ q lt. r.below q lt) r.text;
        below = λ q lt. r.below q (omega (arith, lt));
        above = λ q lt. r.above q (omega (arith, lt, length-append bs cs));
      },
    )
  where
    apart : Apart (dst + length bs) src (length cs)
    apart = elim a [ inl x ↦ inl (omega (arith, x)) | inr x ↦ inr (omega (arith, x)) ]

char_diff-zero : (a b : ℕ) → a < 256 → b < 256 → char_diff a b ≡ pos 0 → a ≡ b
unfolding char_diff
char_diff-zero a b la lb e = ground (arith, e)

char_diff-same : (a : ℕ) → char_diff a a ≡ pos 0
unfolding char_diff
char_diff-same a = ground arith

-- With more rounds than the first text has characters, `strcmp` of two texts of bytes ends, and its
-- result is 0 exactly when they are the same.
pub strcmp-Text :
    (fuel s1 s2 : ℕ) (mem : ℕ → ℕ) (cs ds : List ℕ)
    → Text mem s1 cs
    → Text mem s2 ds
    → ((q : ℕ) → mem q < 256)
    → length cs < fuel
    → (r : ℤ) × (strcmp fuel s1 s2 mem ≡ some r) × ((r ≡ pos 0) ↔ (cs ≡ ds))
unfolding strcmp Text
strcmp-Text zero s1 s2 mem cs ds t u bytes l = absurd (omega (arith, l))
strcmp-Text (suc n) s1 s2 mem [] ds t u bytes l =
    let stop : (not (mem s1 == 0) && (mem s1 == mem s2)) ≡ false = ground (arith, t) in
    (char_diff (mem s1) (mem s2), rw stop refl, (ended ds u, same ds u))
  where
    ended : (ds : List ℕ) → Text mem s2 ds → char_diff (mem s1) (mem s2) ≡ pos 0 → [] ≡ ds
    ended [] u e = refl
    ended (d ∷ ds) (f, nz, u) e =
        absurd (nz (sym f ∙ sym (char_diff-zero (mem s1) (mem s2) (bytes s1) (bytes s2) e) ∙ t))

    same : (ds : List ℕ) → Text mem s2 ds → [] ≡ ds → char_diff (mem s1) (mem s2) ≡ pos 0
    same [] u e = let eq : mem s1 ≡ mem s2 = t ∙ sym u in rw eq (char_diff-same (mem s2))
    same (d ∷ ds) u e = cc
strcmp-Text (suc n) s1 s2 mem (c ∷ cs) [] (f, nz, t) u bytes l =
    let stop : (not (mem s1 == 0) && (mem s1 == mem s2)) ≡ false = ground (arith, f, nz, u) in
    (
      char_diff (mem s1) (mem s2),
      rw stop refl,
      (
        (λ e. absurd (nz (sym f ∙ char_diff-zero (mem s1) (mem s2) (bytes s1) (bytes s2) e ∙ u))),
        (λ e. cc),
      ),
    )
strcmp-Text (suc n) s1 s2 mem (c ∷ cs) (d ∷ ds) (f, nz, t) (g, mz, u) bytes l =
    elim (Bool-cases (c == d)) [
      | inl equal ↦
          let eq : c ≡ d = ground (arith, equal) in
          let go : (not (mem s1 == 0) && (mem s1 == mem s2)) ≡ true =
            ground (arith, f, g, nz, eq) in
          let (r, runs, (fwd, bwd)) =
            strcmp-Text n (s1 + 1) (s2 + 1) mem cs ds t u bytes (omega (arith, l)) in
          (r, rw go runs, ((λ e. let rest = fwd e in cc), (λ e. bwd (cc))))
      | inr differ ↦
          let ne : c ≢ d = ground (arith, differ) in
          let stop : (not (mem s1 == 0) && (mem s1 == mem s2)) ≡ false = ground (arith, f, g, ne) in
          (
            char_diff (mem s1) (mem s2),
            rw stop refl,
            (
              (λ e.
                  absurd
                    (ne (sym f ∙ char_diff-zero (mem s1) (mem s2) (bytes s1) (bytes s2) e ∙ g))),
              (λ e. absurd (ne (cc))),
            ),
          )
    ]
