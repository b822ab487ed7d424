-- ===== src/Screen/Tests.antt =====
-- A screen at its last line.
use beeos.Prelude.{◌≡◌, [], ◌∷◌, true, arith}
use beeos.Screen.{Screen, screen_write}
use beeos.Screen.Cells.{IsOn, screen_write-IsOn}

abbrev last_line : Screen
last_line = record { pos_x = 79; pos_y = 24; dirty = true; buf = λ q. q }

screen_write-IsOn_example :
    IsOn (screen_write last_line (b'a' ∷ b'\n' ∷ []))
    × ((screen_write last_line (b'a' ∷ b'\n' ∷ [])).buf 2000 ≡ 2000)
screen_write-IsOn_example =
    screen_write-IsOn last_line (b'a' ∷ b'\n' ∷ []) 2000
      (record { x_lt = omega arith; y_lt = omega arith }) (omega arith)
