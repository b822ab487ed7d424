-- ===== src/Screen.antt =====
-- kernel/src/driver/screen.c: the characters of a console and its cursor. `buf` is the array of
-- SCREEN_WIDTH * SCREEN_HEIGHT characters, as a function of the index.
pub mod Cells
mod Tests
use beeos.Prelude.{
  ℕ, zero, suc, ◌+◌, ◌-◌, ◌*◌, ◌/◌, Bool, true, false, ◌&&◌, not, List, [], ◌∷◌, leb, ltb, ◌==◌,
  if◌then◌else◌,
}
use beeos.Strings.{poke, forwards}

abbrev pub width : ℕ
width = 80

abbrev pub height : ℕ
height = 25

-- `struct screen`
pub record Screen : Type 0 where
  pub pos_x : ℕ
  pub pos_y : ℕ
  pub dirty : Bool
  pub buf : ℕ → ℕ

-- The second loop of the scrolling, with the rounds that are left.
pub blank_from : ℕ → ℕ → (ℕ → ℕ) → ℕ → ℕ
blank_from zero i buf = buf
blank_from (suc n) i buf = blank_from n (i + 1) (poke i b' ' buf)

-- What is done with the character.
pub place : Screen → ℕ → Screen
place s c =
    if leb b' ' c && leb c b'~'
    then record s { buf = poke (s.pos_y * width + s.pos_x) c s.buf; pos_x = s.pos_x + 1 }
    else if c == 8
    then (if s.pos_x == 0 then s else record s { pos_x = s.pos_x - 1 })
    else if c == b'\t'
    then record s { pos_x = (s.pos_x + 4) / 4 * 4 }
    else if c == b'\n'
    then record s { pos_x = 0; pos_y = s.pos_y + 1 }
    else if c == b'\r'
    then record s { pos_x = 0 }
    else s

-- `if (scr->pos_x >= SCREEN_WIDTH)`
pub wrap_line : Screen → Screen
wrap_line s = if leb width s.pos_x then record s { pos_x = 0; pos_y = s.pos_y + 1 } else s

pub scrolled : (ℕ → ℕ) → ℕ → ℕ
scrolled buf =
    blank_from width (width * (height - 1)) (forwards (width * (height - 1)) 0 0 width buf)

-- `if (scr->pos_y >= SCREEN_HEIGHT)`
pub scroll : Screen → Screen
scroll s = if leb height s.pos_y then record s { buf = scrolled s.buf; pos_y = height - 1 } else s

unfoldable pub screen_putchar : Screen → ℕ → Screen
screen_putchar s c = record (scroll (wrap_line (place s c))) { dirty = true }

unfoldable pub screen_write : Screen → List ℕ → Screen
screen_write s [] = s
screen_write s (c ∷ cs) = screen_write (screen_putchar s c) cs

-- `memset` of the array, and the cursor.
pub screen_init : (ℕ → ℕ) → Screen
screen_init buf = record {
  pos_x = 0;
  pos_y = 0;
  dirty = true;
  buf = blank_from (width * height) 0 buf;
}
