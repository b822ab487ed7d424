-- ===== src/Strings/Tokens/Firsts.antt =====
-- libc/src/string/strtok.c: the first token of a text, and what is left for the next call.
use beeos.Prelude.{
  ℕ, zero, suc, ◌+◌, ◌<◌, ◌≡◌, refl, Bool, true, false, Option, none, some, List, [], ◌∷◌, ◌++◌,
  append-nil, length, All, arith, ◌==◌,
}
use beeos.Strings.{poke}
use beeos.Strings.Texts.Ends.{Text, Text-move, Text-frame}
use beeos.Strings.Tokens.{
  is_delim, skip_delims, token_end, Token, cut_token, find_token, strtok_at, strtok,
}

skip_delims-at :
    (fuel : ℕ) (delim : List ℕ) (str i : ℕ) (mem : ℕ → ℕ) (ds : List ℕ) (c : ℕ) (cs : List ℕ)
    → Text mem (str + i) (ds ++ (c ∷ cs))
    → All (λ d. is_delim delim d ≡ true) ds
    → is_delim delim c ≡ false
    → length ds < fuel
    → skip_delims fuel delim str i mem ≡ some (some (i + length ds))
unfolding skip_delims Text
skip_delims-at zero delim str i mem ds c cs t a plain l = absurd (omega (arith, l))
skip_delims-at (suc n) delim str i mem [] c cs (e, nz, t) a plain l =
    let more : (mem (str + i) == 0) ≡ false = ground (arith, e, nz) in
    let len : i + 0 ≡ i = omega arith in rw (more, e, plain, len) refl
skip_delims-at (suc n) delim str i mem (d ∷ ds) c cs (e, nz, t) (yes_d, a) plain l =
    let more : (mem (str + i) == 0) ≡ false = ground (arith, e, nz) in
    let rest =
      skip_delims-at n delim str (i + 1) mem ds c cs
        (Text-move mem _ _ (ds ++ (c ∷ cs)) (omega arith) t) a plain (omega (arith, l)) in
    let len : i + 1 + length ds ≡ i + length (d ∷ ds) = omega arith in
    rw (more, e, yes_d, rest, len) refl

-- Whether a delimiter ends the token: `rest` is what is behind it.
abbrev pub has_more : List ℕ → Bool
has_more [] = false
has_more (d ∷ more) = true

-- What stands behind a token starts with a delimiter, or is nothing.
abbrev pub IsEnd : List ℕ → List ℕ → Type 0
IsEnd delim [] = Unit
IsEnd delim (d ∷ more) = is_delim delim d ≡ true

token_end-at :
    (fuel : ℕ) (delim : List ℕ) (str i : ℕ) (mem : ℕ → ℕ) (t rest : List ℕ)
    → Text mem (str + i) (t ++ rest)
    → All (λ c. is_delim delim c ≡ false) t
    → IsEnd delim rest
    → length t < fuel
    → token_end fuel delim str i mem ≡ some (i + length t, has_more rest)
unfolding token_end Text
token_end-at zero delim str i mem t rest x a end l = absurd (omega (arith, l))
token_end-at (suc n) delim str i mem [] [] x a end l =
    let stop : (mem (str + i) == 0) ≡ true = ground (arith, x) in
    let len : i + 0 ≡ i = omega arith in rw (stop, len) refl
token_end-at (suc n) delim str i mem [] (d ∷ more) (e, nz, x) a end l =
    let go : (mem (str + i) == 0) ≡ false = ground (arith, e, nz) in
    let len : i + 0 ≡ i = omega arith in rw (go, e, end, len) refl
token_end-at (suc n) delim str i mem (c ∷ t) rest (e, nz, x) (plain, a) end l =
    let go : (mem (str + i) == 0) ≡ false = ground (arith, e, nz) in
    let later =
      token_end-at n delim str (i + 1) mem t rest (Text-move mem _ _ (t ++ rest) (omega arith) x) a
        end (omega (arith, l)) in
    let len : i + 1 + length t ≡ i + length (c ∷ t) = omega arith in
    rw (go, e, plain, later, len) refl

-- The parts of a text.
Text-front :
    (mem : ℕ → ℕ) (s : ℕ) (bs cs : List ℕ)
    → Text mem s (bs ++ cs)
    → Text (poke (s + length bs) 0 mem) s bs
unfolding Text
Text-front mem s [] cs t = ground arith
Text-front mem s (b ∷ bs) cs (e, nz, t) =
    let at : s + 1 + length bs ≡ s + length (b ∷ bs) = omega arith in
    (ground (arith, e), nz, rw at at (Text-front mem (s + 1) bs cs t))

Text-back :
    (mem : ℕ → ℕ) (s : ℕ) (bs cs : List ℕ) → Text mem s (bs ++ cs) → Text mem (s + length bs) cs
unfolding Text
Text-back mem s [] cs t = Text-move mem _ _ cs (omega arith) t
Text-back mem s (b ∷ bs) cs (e, nz, t) =
    Text-move mem _ _ cs (omega arith) (Text-back mem (s + 1) bs cs t)

-- Where the next call starts, and what text it finds.
abbrev pub next_at : ℕ → List ℕ → Option ℕ
next_at p [] = none
next_at p (d ∷ more) = some (p + 1)

abbrev pub IsLeft : (ℕ → ℕ) → ℕ → List ℕ → Type 0
IsLeft mem p [] = Unit
IsLeft mem p (d ∷ more) = Text mem (p + 1) more

pub record Cut (delim : List ℕ) (start : ℕ) (t rest : List ℕ) (r : Option Token) : Type 0 where
  pub result : Token
  pub cuts : r ≡ some result
  pub token : result.token ≡ some start
  pub text : Text result.mem start t
  pub next : result.next ≡ next_at (start + length t) rest
  pub left : IsLeft result.mem (start + length t) rest

cut_token-Cut :
    (fuel : ℕ) (delim : List ℕ) (str : ℕ) (mem : ℕ → ℕ) (t rest : List ℕ)
    → Text mem str (t ++ rest)
    → All (λ c. is_delim delim c ≡ false) t
    → IsEnd delim rest
    → length t < fuel
    → Cut delim str t rest (cut_token fuel delim str mem)
unfolding cut_token Text
cut_token-Cut fuel delim str mem t [] x a end l =
    let found =
      token_end-at fuel delim str 0 mem t [] (Text-move mem _ _ (t ++ []) (omega arith) x) a end
        l in
    record {
      result = record { token = some str; next = none; mem = mem };
      cuts = rw (found, cut_token) refl;
      token = refl;
      text = rw append-nil at x;
      next = refl;
      left = tt;
    }
cut_token-Cut fuel delim str mem t (d ∷ more) x a end l =
    let found =
      token_end-at fuel delim str 0 mem t (d ∷ more)
        (Text-move mem _ _ (t ++ (d ∷ more)) (omega arith) x) a end l in
    let len : 0 + length t ≡ length t = omega arith in
    let mem' = poke (str + length t) 0 mem in
    let (e, nz, behind) = Text-back mem str t (d ∷ more) x in
    record {
      result = record { token = some str; next = some (str + length t + 1); mem = mem' };
      cuts = rw (found, len, cut_token) refl;
      token = refl;
      text = Text-front mem str t (d ∷ more) x;
      next = refl;
      left = Text-frame mem mem' (str + length t + 1) more behind (λ q lo hi. ground (arith, lo));
    }

head-ne-zero :
    (mem : ℕ → ℕ) (s : ℕ) (ds : List ℕ) (c : ℕ) (cs : List ℕ)
    → Text mem s (ds ++ (c ∷ cs))
    → (mem s == 0) ≡ false
unfolding Text
head-ne-zero mem s [] c cs (e, nz, t) = ground (arith, e, nz)
head-ne-zero mem s (d ∷ ds) c cs (e, nz, t) = ground (arith, e, nz)

find_token-Cut :
    (fuel : ℕ) (delim : List ℕ) (str : ℕ) (mem : ℕ → ℕ) (ds : List ℕ) (c : ℕ) (t rest : List ℕ)
    → Text mem str (ds ++ ((c ∷ t) ++ rest))
    → All (λ d. is_delim delim d ≡ true) ds
    → All (λ x. is_delim delim x ≡ false) (c ∷ t)
    → IsEnd delim rest
    → length ds < fuel
    → length (c ∷ t) < fuel
    → Cut delim (str + length ds) (c ∷ t) rest (find_token fuel delim str mem)
unfolding find_token
find_token-Cut fuel delim str mem ds c t rest x a (plain, b) end l m =
    let found =
      skip_delims-at fuel delim str 0 mem ds c (t ++ rest)
        (Text-move mem _ _ (ds ++ (c ∷ (t ++ rest))) (omega arith) x) a plain l in
    let len : 0 + length ds ≡ length ds = omega arith in
    let cut =
      cut_token-Cut fuel delim (str + length ds) mem (c ∷ t) rest
        (Text-back mem str ds (c ∷ (t ++ rest)) x) (plain, b) end m in
    rw (found, len, find_token) cut

-- With more rounds than there are characters in either part, `strtok` of a text of delimiters, then a
-- token with none, and then a delimiter or the end returns the token as a text of its own, and the
-- pointer for the next call leads behind that delimiter, to the text that was left there, or is NULL
-- at the end of the text.
pub strtok-Cut :
    (fuel : ℕ) (d : ℕ) (delim : List ℕ) (str : ℕ) (next : Option ℕ) (mem : ℕ → ℕ) (ds : List ℕ)
    (c : ℕ) (t rest : List ℕ)
    → Text mem str (ds ++ ((c ∷ t) ++ rest))
    → All (λ x. is_delim (d ∷ delim) x ≡ true) ds
    → All (λ x. is_delim (d ∷ delim) x ≡ false) (c ∷ t)
    → IsEnd (d ∷ delim) rest
    → length ds < fuel
    → length (c ∷ t) < fuel
    → Cut (d ∷ delim) (str + length ds) (c ∷ t) rest (strtok fuel (d ∷ delim) (some str) next mem)
unfolding strtok strtok_at
strtok-Cut fuel d delim str next mem ds c t rest x a b end l m =
    let more = head-ne-zero mem str ds c (t ++ rest) x in
    rw more (find_token-Cut fuel (d ∷ delim) str mem ds c t rest x a b end l m)
