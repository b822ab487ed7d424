-- ===== src/Screen/Cells.antt =====
-- kernel/src/driver/screen.c: the cursor stays on the screen, writes stay inside the array, and what
-- scrolling leaves in the cells.
use beeos.Prelude.{
  ℕ, zero, suc, ◌+◌, ◌-◌, ◌*◌, ◌≤◌, ◌<◌, ◌≡◌, refl, ap, ◌∙◌, ◌⊎◌, inl, inr, ◌&&◌, List, [], ◌∷◌,
  arith, leb, ltb, if◌then◌else◌, Bool-cases,
}
use beeos.Strings.{poke, forwards}
use beeos.Strings.Copies.{forwards-rest_copied, rest_copied}
use beeos.Screen.{
  Screen, width, height, blank_from, place, wrap_line, scrolled, scroll, screen_putchar,
  screen_write,
}

-- The cursor is on the screen.
pub record IsOn (s : Screen) : Type 0 where
  pub x_lt : s.pos_x < width
  pub y_lt : s.pos_y < height

place-bounds :
    (s : Screen) (c : ℕ)
    → IsOn s
    → ((place s c).pos_x ≤ width + 3)
      × ((place s c).pos_y ≤ height)
      × (((place s c).pos_x < width) ⊎ ((place s c).pos_y < height))
unfolding place
place-bounds s c v = ground arith

place-outside : (s : Screen) (c q : ℕ) → IsOn s → width * height ≤ q → (place s c).buf q ≡ s.buf q
unfolding place
place-outside s c q v out = ground arith

blank_from_cell :
    (n i : ℕ) (buf : ℕ → ℕ) (q : ℕ)
    → blank_from n i buf q ≡ (if leb i q && ltb q (i + n) then b' ' else buf q)
unfolding blank_from
blank_from_cell zero i buf q = ground arith
blank_from_cell (suc n) i buf q = ground (arith, blank_from_cell n (i + 1) (poke i b' ' buf) q)

-- Scrolling moves every line up by one, clears the last one, and writes nothing outside the array.
pub scrolled_cell :
    (buf : ℕ → ℕ) (q : ℕ)
    → scrolled buf q ≡ (
        if ltb q (width * (height - 1))
        then buf (width + q)
        else if ltb q (width * height)
        then b' '
        else buf q)
unfolding scrolled
scrolled_cell buf q =
    let moved = forwards-rest_copied (width * (height - 1)) 0 0 width buf q (inl (omega arith)) in
    let from : buf (width + (q - 0)) ≡ buf (width + q) = ap (λ k. buf (width + k)) (omega arith) in
    blank_from_cell width (width * (height - 1)) (forwards (width * (height - 1)) 0 0 width buf) q
    ∙ last_line (forwards (width * (height - 1)) 0 0 width buf q) (moved ∙ first_lines from)
  where
    first_lines :
        buf (width + (q - 0)) ≡ buf (width + q)
        → rest_copied 0 width 0 (width * (height - 1)) buf q
          ≡ (if ltb q (width * (height - 1)) then buf (width + q) else buf q)
    first_lines from = ground arith

    last_line :
        (cell : ℕ)
        → cell ≡ (if ltb q (width * (height - 1)) then buf (width + q) else buf q)
        → (if leb (width * (height - 1)) q && ltb q (width * (height - 1) + width)
            then b' '
            else cell)
          ≡ (if ltb q (width * (height - 1))
              then buf (width + q)
              else if ltb q (width * height)
              then b' '
              else buf q)
    last_line cell e = ground arith

wrap_line-bounds :
    (s : Screen)
    → s.pos_y ≤ height
    → (s.pos_x < width) ⊎ (s.pos_y < height)
    → ((wrap_line s).pos_x < width) × ((wrap_line s).pos_y ≤ height) × ((wrap_line s).buf ≡ s.buf)
unfolding wrap_line
wrap_line-bounds s y xy = ground arith

scroll-bounds :
    (s : Screen) (q : ℕ)
    → s.pos_y ≤ height
    → s.pos_x < width
    → width * height ≤ q
    → IsOn (scroll s) × ((scroll s).buf q ≡ s.buf q)
unfolding scroll
scroll-bounds s q y x out = elim (Bool-cases (leb height s.pos_y)) [
  | inl full ↦
      rw (full, scroll)
        (record { x_lt = x; y_lt = omega arith }, ground (arith, scrolled_cell s.buf q))
  | inr fits ↦ rw (fits, scroll) (record { x_lt = x; y_lt = ground arith }, refl)
]

-- Whatever is written, the cursor stays on the screen, and nothing outside the array of its
-- characters is changed.
pub screen_write-IsOn :
    (s : Screen) (cs : List ℕ) (q : ℕ)
    → IsOn s
    → width * height ≤ q
    → IsOn (screen_write s cs) × ((screen_write s cs).buf q ≡ s.buf q)
unfolding screen_write screen_putchar
screen_write-IsOn s [] q v out = (v, refl)
screen_write-IsOn s (c ∷ cs) q v out =
    let (x, y, xy) = place-bounds s c v in
    let (x', y', b') = wrap_line-bounds (place s c) y xy in
    let (v', b'') = scroll-bounds (wrap_line (place s c)) q y' x' out in
    let (on, same) =
      screen_write-IsOn (screen_putchar s c) cs q (record { x_lt = v'.x_lt; y_lt = v'.y_lt }) out in
    (on, same ∙ b'' ∙ ap (λ f. f q) b' ∙ place-outside s c q v out)
