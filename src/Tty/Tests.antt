-- ===== src/Tty/Tests.antt =====
-- A terminal with two typed characters.
use beeos.Prelude.{◌+◌, ◌≡◌, [], true, arith}
use beeos.Tty.{Tty, update_line}
use beeos.Tty.Lines.{IsValid, pending, line, edit, update_line-edit}

abbrev typed : Tty
typed = record {
  dev = 0x0401;
  pgrp = 1;
  refs = 1;
  echo = true;
  waiting = [];
  rpos = 0;
  wpos = 2;
  rbuf = λ q. b'a' + q;
}

update_line-edit_example :
    IsValid (update_line typed 8) × (pending (update_line typed 8) ≡ edit (line typed) 8)
update_line-edit_example =
    update_line-edit typed 8 (record { ordered = omega arith; inside = omega arith })
