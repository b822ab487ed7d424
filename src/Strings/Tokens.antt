-- ===== src/Strings/Tokens.antt =====
-- libc/src/string/strtok.c: the tokens of a text. The delimiters are the characters of their text.
pub mod Firsts
use beeos.Prelude.{
  ℕ, zero, suc, ◌+◌, Bool, true, false, Option, none, some, List, [], ◌∷◌, ◌==◌, ◌||◌,
  if◌then◌else◌,
}
use beeos.Strings.{poke}

-- `for (j = 0; delim[j] != 0; j++) if (str[i] == delim[j]) ...`
unfoldable pub is_delim : List ℕ → ℕ → Bool
is_delim [] c = false
is_delim (d ∷ ds) c = (c == d) || is_delim ds c

-- The first loop: the index of the first character that is no delimiter. The outer `none` is a lack
-- of rounds.
unfoldable pub skip_delims : ℕ → List ℕ → ℕ → ℕ → (ℕ → ℕ) → Option (Option ℕ)
unfolding is_delim
skip_delims zero delim str i mem = none
skip_delims (suc n) delim str i mem =
    let rest = skip_delims n delim str (i + 1) mem in
    if mem (str + i) == 0
    then some none
    else if is_delim delim (mem (str + i))
    then rest
    else some (some i)

-- The second loop: where the token ends, and whether a delimiter is there.
unfoldable pub token_end : ℕ → List ℕ → ℕ → ℕ → (ℕ → ℕ) → Option (ℕ × Bool)
unfolding is_delim
token_end zero delim str i mem = none
token_end (suc n) delim str i mem =
    let rest = token_end n delim str (i + 1) mem in
    if mem (str + i) == 0
    then some (i, false)
    else if is_delim delim (mem (str + i))
    then some (i, true)
    else rest

-- The token, or NULL, the static pointer `next`, and the memory.
pub record Token : Type 0 where
  pub token : Option ℕ
  pub next : Option ℕ
  pub mem : ℕ → ℕ

-- What is done from the start `str` of a token on.
pub cut_token : ℕ → List ℕ → ℕ → (ℕ → ℕ) → Option Token
unfolding token_end
cut_token fuel delim str mem = elim (token_end fuel delim str 0 mem) [
  | none ↦ none
  | some (i, true) ↦
      some (record { token = some str; next = some (str + i + 1); mem = poke (str + i) 0 mem })
  | some (i, false) ↦ some (record { token = some str; next = none; mem = mem })
]

-- `strtok` of a text that is not empty, with delimiters.
pub find_token : ℕ → List ℕ → ℕ → (ℕ → ℕ) → Option Token
unfolding skip_delims cut_token
find_token fuel delim str mem = elim (skip_delims fuel delim str 0 mem) [
  | none ↦ none
  | some none ↦ some (record { token = none; next = none; mem = mem })
  | some (some i) ↦ cut_token fuel delim (str + i) mem
]

pub strtok_at : ℕ → List ℕ → Option ℕ → Option ℕ → (ℕ → ℕ) → Option Token
unfolding find_token
strtok_at fuel delim none next mem = some (record { token = none; next = next; mem = mem })
strtok_at fuel [] (some str) next mem =
    if mem str == 0
    then some (record { token = none; next = none; mem = mem })
    else some (record { token = some str; next = next; mem = mem })
strtok_at fuel (d ∷ ds) (some str) next mem =
    let found = find_token fuel (d ∷ ds) str mem in
    if mem str == 0 then some (record { token = none; next = none; mem = mem }) else found

-- Without a text it goes on where the last call has stopped.
pub strtok : ℕ → List ℕ → Option ℕ → Option ℕ → (ℕ → ℕ) → Option Token
unfolding strtok_at
strtok fuel delim none next mem = strtok_at fuel delim next next mem
strtok fuel delim (some str) next mem = strtok_at fuel delim (some str) next mem
