-- ===== src/Strings/Tests.antt =====
-- Copies that overlap, and short texts at fixed addresses.
use beeos.Prelude.{
  ℕ, true, false, ◌≡◌, ◌<◌, refl, some, none, List, [], ◌∷◌, arith, ◌==◌, if◌then◌else◌,
}
use mathlib.Core.Logic.{◌↔◌}
use beeos.Prelude.Int.{ℤ, pos}
use beeos.Strings.Texts.{strcmp}
use beeos.Strings.Texts.Ends.{Text, strcmp-Text}
use beeos.Strings.Tokens.{strtok, is_delim}
use beeos.Strings.Tokens.Firsts.{Cut, strtok-Cut}

-- "a" at 10, "b" at 20 and ",x,y" at 30.
abbrev bytes : ℕ → ℕ
bytes q =
    if q == 10
    then 97
    else if q == 20
    then 98
    else if q == 30
    then 44
    else if q == 31
    then 120
    else if q == 32
    then 44
    else if q == 33
    then 121
    else 0

a-Text : Text bytes 10 (97 ∷ [])
unfolding Text
a-Text = ground arith

b-Text : Text bytes 20 (98 ∷ [])
unfolding Text
b-Text = ground arith

list-Text : Text bytes 30 (44 ∷ 120 ∷ 44 ∷ 121 ∷ [])
unfolding Text
list-Text = (refl, omega arith, (refl, omega arith, (refl, omega arith, (refl, omega arith, refl))))

bytes-lt : (q : ℕ) → bytes q < 256
bytes-lt q = ground arith

strcmp-Text_example :
    (r : ℤ) × (strcmp 2 10 20 bytes ≡ some r)
    × ((r ≡ pos 0) ↔ (◌≡◌ {A = List ℕ} (97 ∷ []) (98 ∷ [])))
strcmp-Text_example =
    strcmp-Text 2 10 20 bytes (97 ∷ []) (98 ∷ []) a-Text b-Text bytes-lt (omega arith)

comma : is_delim (44 ∷ []) 44 ≡ true
unfolding is_delim
comma = refl

letter : is_delim (44 ∷ []) 120 ≡ false
unfolding is_delim
letter = refl

strtok-Cut_example :
    Cut (44 ∷ []) 31 (120 ∷ []) (44 ∷ 121 ∷ []) (strtok 3 (44 ∷ []) (some 30) none bytes)
strtok-Cut_example =
    strtok-Cut 3 44 [] 30 none bytes (44 ∷ []) 120 [] (44 ∷ 121 ∷ []) list-Text (comma, tt)
      (letter, tt) comma (omega arith) (omega arith)
