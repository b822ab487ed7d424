-- ===== src/Tty.antt =====
-- kernel/src/driver/tty.c: the terminals. `tty_table` and `scr_table` are lists, and a terminal is
-- its index. The serial line that every character is copied to is left out.
pub mod Lines
mod Tests
use beeos.Prelude.{
  ℕ, zero, suc, ◌+◌, ◌-◌, ◌%◌, ◌^◌, Bool, true, false, ◌&&◌, ◌||◌, not, Option, none, some, List,
  [], ◌∷◌, ◌++◌, leb, ltb, ◌==◌, if◌then◌else◌, get_elem?, set, length,
}
use beeos.Screen.{Screen, screen_putchar}

abbrev pub max_canon : ℕ
max_canon = 256

-- DEV_TTY, DEV_CONSOLE and DEV_TTY1.
abbrev pub dev_tty : ℕ
dev_tty = 0x0500

abbrev pub dev_console : ℕ
dev_console = 0x0501

abbrev pub dev_tty1 : ℕ
dev_tty1 = 0x0401

abbrev pub ttys_total : ℕ
ttys_total = 4

abbrev pub minor : ℕ → ℕ
minor dev = dev % 256

-- `struct tty_st`: `echo` is the bit ECHO of the attributes, `waiting` the queue of `rcond`, `rbuf`
-- the character at each index.
pub record Tty : Type 0 where
  pub dev : ℕ
  pub pgrp : ℕ
  pub refs : ℕ
  pub echo : Bool
  pub waiting : List ℕ
  pub rpos : ℕ
  pub wpos : ℕ
  pub rbuf : ℕ → ℕ

-- The driver's tables, and the terminal of the current process.
pub record Ttys : Type 0 where
  pub table : List Tty
  pub screens : List Screen
  pub curr : ℕ
  pub mine : ℕ
  pub pgid : ℕ

-- The loops over the table for the device, from the index `i` on.
pub find_dev : ℕ → List Tty → ℕ → Option ℕ
find_dev dev [] i = none
find_dev dev (t ∷ ts) i = if dev == t.dev then some i else find_dev dev ts (i + 1)

-- `minor(dev) - 1` of a device without a number would be no index.
unfoldable pub tty_lookup : Ttys → ℕ → Option ℕ
unfolding find_dev
tty_lookup s dev =
    if dev == dev_tty
    then find_dev s.mine s.table 0
    else (let i = if (minor dev == 0) || (dev == dev_console) then s.curr else minor dev - 1 in
        if ltb i ttys_total then some i else none)

-- `none` for -1.
unfoldable pub tty_getpgrp : Ttys → Option ℕ
tty_getpgrp s = elim (tty_lookup s s.mine) [
  | none ↦ none
  | some i ↦ elim (get_elem? s.table i) [ none ↦ none | some t ↦ some t.pgrp ]
]

-- A change of the terminal with the index.
abbrev pub with_tty : Ttys → ℕ → (Tty → Tty) → Ttys
with_tty s i f = elim (get_elem? s.table i) [
  | none ↦ s
  | some t ↦ record s { table = set s.table i (f t) }
]

-- `false` for -1.
unfoldable pub tty_setpgrp : Ttys → ℕ → Bool × Ttys
tty_setpgrp s pgrp = elim (tty_lookup s s.mine) [
  | none ↦ (false, s)
  | some i ↦ (true, with_tty s i (λ t. record t { pgrp = pgrp }))
]

unfoldable pub tty_change : Ttys → ℕ → Ttys
tty_change s n =
    if ltb n ttys_total
    then elim (get_elem? s.screens n) [
      | none ↦ record s { curr = n }
      | some scr ↦ record s { curr = n; screens = set s.screens n (record scr { dirty = true }) }
    ]
    else s

-- The loop of `tty_get`: the terminals after it, and the device.
pub get_from : ℕ → List Tty → Option ℕ × List Tty
get_from pgid [] = (none, [])
get_from pgid (t ∷ ts) =
    let (dev, ts') = get_from pgid ts in
    if (t.pgrp == 0) || (t.pgrp == pgid)
    then (some t.dev, record t { pgrp = pgid; refs = t.refs + 1 } ∷ ts)
    else (dev, t ∷ ts')

-- `none` for (dev_t)-1.
unfoldable pub tty_get : Ttys → Option ℕ × Ttys
unfolding get_from
tty_get s = let (dev, ts) = get_from s.pgid s.table in (dev, record s { table = ts })

pub put_tty : Tty → Tty
put_tty t =
    if ltb 0 t.refs
    then record t { refs = t.refs - 1; pgrp = if t.refs - 1 == 0 then 0 else t.pgrp }
    else t

unfoldable pub tty_put : Ttys → ℕ → Ttys
unfolding put_tty
tty_put s dev = elim (tty_lookup s dev) [ none ↦ s | some i ↦ with_tty s i put_tty ]

-- `tty_putchar`, `false` for -EINVAL.
unfoldable pub tty_putchar : Ttys → ℕ → ℕ → Bool × Ttys
tty_putchar s dev c = elim (tty_lookup s dev) [
  | none ↦ (false, s)
  | some i ↦ elim (get_elem? s.table i) [
    | none ↦ (false, s)
    | some t ↦
        let k = minor t.dev - 1 in
        elim (get_elem? s.screens k) [
          | none ↦ (true, s)
          | some scr ↦ (true, record s { screens = set s.screens k (screen_putchar scr c) })
        ]
  ]
]

-- The loop of `tty_write`: how many characters were written.
unfoldable pub tty_write : Ttys → ℕ → List ℕ → ℕ × Ttys
tty_write s dev [] = (0, s)
tty_write s dev (c ∷ cs) =
    let (ok, s') = tty_putchar s dev c in
    let (n, s'') = tty_write s' dev cs in if ok then (n + 1, s'') else (0, s')

-- The two tests at the start of `tty_update`.
pub adjusted : Tty → Tty
adjusted t =
    let wpos = if leb max_canon t.wpos then max_canon - 1 else t.wpos in
    if ltb wpos t.rpos then record t { rpos = 0; wpos = 0 } else record t { wpos = wpos }

-- `cond_signal`: the first of the waiting tasks goes on.
abbrev pub signalled : List ℕ → List ℕ
signalled [] = []
signalled (task ∷ tasks) = tasks

-- The character goes into the buffer, or the one before it out of it.
pub entered : Tty → ℕ → Tty
entered t c =
    if c == 8 then (if ltb t.rpos t.wpos then record t { wpos = t.wpos - 1 } else t) else record t {
      rbuf = λ q. if q == t.wpos then c else t.rbuf q;
      wpos = t.wpos + 1;
      waiting = if (c == 0) || (c == b'\n') then signalled t.waiting else t.waiting;
    }

-- The echo of a character: a rubout is a blank between two backspaces.
pub echoed : Tty → ℕ → List ℕ
echoed t c = if c == 8 then (if ltb t.rpos t.wpos then 8 ∷ b' ' ∷ 8 ∷ [] else []) else c ∷ []

-- `tty_update` without the echo.
unfoldable pub update_line : Tty → ℕ → Tty
unfolding adjusted entered
update_line t c = entered (adjusted t) c

unfoldable pub tty_update : Ttys → ℕ → Ttys
unfolding adjusted echoed
tty_update s c = elim (get_elem? s.table s.curr) [
  | none ↦ s
  | some t ↦
      let s' = record s { table = set s.table s.curr (update_line t c) } in
      let bytes = echoed (adjusted t) c in
      if t.echo && not (length bytes == 0) then (tty_write s' t.dev bytes).1 else s'
]

-- What `tty_read_wait` comes to: a character, -1, or sleep with the buffer emptied.
pub data Key : Type 0 where
  key : ℕ → Tty → Key
  no_key : Tty → Key
  asleep : Tty → Key

-- `tty_read_wait` of a terminal that there is; `me` is the calling task.
pub read_wait : Tty → ℕ → Bool → Key
read_wait t me could_block =
    if ltb t.rpos t.wpos
    then key (t.rbuf t.rpos) (record t { rpos = t.rpos + 1 })
    else (if could_block
        then asleep (record t { rpos = 0; wpos = 0; waiting = t.waiting ++ (me ∷ []) })
        else no_key t)

-- What `tty_read` comes to.
pub data Reading : Type 0 where
  got : List ℕ → Tty → Reading
  sleeping : Tty → Reading

-- The loop, with the characters that may still be read and those that were. A first character of 0
-- is the end of the input.
pub read_chars : ℕ → ℕ → Tty → List ℕ → Reading
unfolding read_wait
read_chars zero me t out = got out t
read_chars (suc n) me t out = elim (read_wait t me (length out == 0)) [
  | key c t' ↦
      if (c == 0) && (length out == 0) then got [] t' else read_chars n me t' (out ++ (c ∷ []))
  | no_key t' ↦ got out t'
  | asleep t' ↦ sleeping t'
]

unfoldable pub tty_read : Tty → ℕ → ℕ → Reading
unfolding read_chars
tty_read t me size = read_chars size me t []

abbrev pub tty_struct_init : Tty → ℕ → Tty
tty_struct_init t dev = record t {
  dev = dev;
  pgrp = 0;
  echo = true;
  waiting = [];
  rpos = 0;
  wpos = 0;
  rbuf = λ q. if q == 0 then 0 else t.rbuf q;
}
