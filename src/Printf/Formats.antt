-- ===== src/Printf/Formats.antt =====
-- libc/src/stdio/vsnprintf.c: `vsnprintf`, the loop over the format. The format is the list of its
-- characters without the 0 at its end, the arguments are a list, and `out` is what stands in `str`
-- below the index `s`.
pub mod Ends
pub mod Plain
use beeos.Prelude.{
  ℕ, zero, suc, ◌+◌, ◌-◌, ◌*◌, ◌%◌, ◌^◌, Bool, true, false, not, ◌&&◌, ◌||◌, Option, none, some,
  List, [], ◌∷◌, ◌++◌, leb, ltb, ◌==◌, if◌then◌else◌, length, min,
}
use beeos.Prelude.Int.{ℤ, pos, negsuc, pos_part, neg_part, sub_ℕ, ◌+ℤ◌, to_long}
use beeos.Numerals.{is_digit, atoi}
use beeos.Printf.{uimaxtoa_fill, imaxtoa_fill, simaxtoa_fill, strtostr_fill}

-- SPECIFIER_NONE to SPECIFIER_TYPE.
pub data Phase : Type 0 where
  outside in_flags in_width in_precision in_type : Phase

-- The bits of `flags`.
pub record Flags : Type 0 where
  pub plus : Bool
  pub minus : Bool
  pub space : Bool
  pub alternate : Bool
  pub zeros : Bool

-- The bits of an `int`, or the string that a pointer leads to.
pub data Arg : Type 0 where
  num : ℕ → Arg
  text : List ℕ → Arg

-- The variables of the loop. `remain` is an `int`.
pub record Printing : Type 0 where
  pub fmt : List ℕ
  pub out : List ℕ
  pub remain : ℤ
  pub phase : Phase
  pub flags : Flags
  pub width_str : List ℕ
  pub precision_str : List ℕ
  pub args : List Arg

-- What a conversion letter asks for.
pub data Conversion : Type 0 where
  pointer : Conversion
  unsigned : ℕ → Bool → Conversion
  decimal string char nothing : Conversion
  -- the 0 at the end of the format is skipped as if it were a letter
  past_end : Conversion

-- `case 'h'` behind another one.
pub short_short : ℕ → Conversion
short_short c =
    if (c == b'd') || (c == b'i')
    then decimal
    else if c == b'u'
    then unsigned 10 false
    else if c == b'o'
    then unsigned 8 false
    else if c == b'x'
    then unsigned 16 false
    else if c == b'X'
    then unsigned 16 true
    else if c == b'b'
    then unsigned 2 false
    else nothing

-- `case 'h'`, and what is left of the format.
pub short : List ℕ → Conversion × List ℕ
unfolding short_short
short [] = (past_end, [])
short (c ∷ []) = if c == b'h' then (past_end, []) else (nothing, [])
short (c ∷ d ∷ fmt) = if c == b'h' then (short_short d, fmt) else (nothing, d ∷ fmt)

-- `switch (format[f++])` of the conversions, without their effect.
pub conversion : ℕ → List ℕ → Conversion × List ℕ
unfolding short
conversion c fmt =
    if c == b'p'
    then (pointer, fmt)
    else if c == b'x'
    then (unsigned 16 false, fmt)
    else if c == b'X'
    then (unsigned 16 true, fmt)
    else if (c == b'd') || (c == b'i')
    then (decimal, fmt)
    else if c == b'u'
    then (unsigned 10 false, fmt)
    else if c == b'h'
    then short fmt
    else if c == b's'
    then (string, fmt)
    else if c == b'c'
    then (char, fmt)
    else (nothing, fmt)

-- `alignment` and `filler`.
pub alignment : Printing → ℤ
alignment s =
    let w = atoi s.width_str in
    if s.flags.minus then to_long (sub_ℕ (neg_part w) (pos_part w)) else w

pub filler : Printing → ℕ
filler s = if s.flags.minus || (s.flags.space || not s.flags.zeros) then b' ' else b'0'

-- What a conversion appends; `none` where the arguments do not fit it, or where it writes or reads
-- outside its field.
pub convert : Printing → Conversion → Option (List ℕ × List Arg)
unfolding alignment filler
convert s pointer = elim s.args [
  | num v ∷ args ↦ some (uimaxtoa_fill v 16 false (pos 8) b'0' s.remain, args)
  | _ ↦ none
]
convert s (unsigned base uppercase) = elim s.args [
  | num v ∷ args ↦ some (uimaxtoa_fill v base uppercase (alignment s) (filler s) s.remain, args)
  | _ ↦ none
]
convert s decimal = elim s.args [
  | num v ∷ args ↦
      let i = to_long (pos v) in
      some (
        if s.flags.plus
            then simaxtoa_fill i 10 false (alignment s) (filler s) s.remain
            else imaxtoa_fill i 10 false (alignment s) (filler s) s.remain,
        args,
      )
  | _ ↦ none
]
convert s string = elim s.args [
  | text t ∷ args ↦ elim (strtostr_fill t (alignment s) b' ' s.remain) [
    | none ↦ none
    | some bytes ↦ some (bytes, args)
  ]
  | _ ↦ none
]
convert s char = elim s.args [ num v ∷ args ↦ some (v % 256 ∷ [], args) | _ ↦ none ]
convert s nothing = some ([], s.args)
convert s past_end = none

-- `remain -= n`, which `%c` leaves out.
pub remaining : ℤ → Conversion → ℕ → ℤ
remaining r char n = r
remaining r pointer n = to_long (sub_ℕ (pos_part r) (neg_part r + n))
remaining r (unsigned base uppercase) n = to_long (sub_ℕ (pos_part r) (neg_part r + n))
remaining r decimal n = to_long (sub_ℕ (pos_part r) (neg_part r + n))
remaining r string n = to_long (sub_ℕ (pos_part r) (neg_part r + n))
remaining r nothing n = r
remaining r past_end n = r

-- `case SPECIFIER_TYPE`.
pub step_type : Printing → ℕ → List ℕ → Option Printing
unfolding conversion convert remaining
step_type s c fmt =
    let (conv, rest) = conversion c fmt in
    elim (convert s conv) [
      | none ↦ none
      | some (bytes, args) ↦ some (record s {
        fmt = rest;
        out = s.out ++ bytes;
        remain = remaining s.remain conv (length bytes);
        phase = outside;
        args = args;
      })
    ]

-- `case SPECIFIER_NONE`.
pub step_outside : Printing → ℕ → List ℕ → Printing
step_outside s c fmt =
    let copied = record s {
      fmt = fmt;
      out = s.out ++ (c ∷ []);
      remain = to_long (sub_ℕ (pos_part s.remain) (neg_part s.remain + 1));
    } in
    if not (c == b'%') then copied else elim fmt [
      | [] ↦ record s { fmt = []; phase = in_flags }
      | d ∷ rest ↦
          if d == b'%'
          then record copied { fmt = rest }
          else record s { fmt = d ∷ rest; phase = in_flags }
    ]

-- `case SPECIFIER_FLAGS`.
pub step_flags : Printing → ℕ → List ℕ → Printing
step_flags s c fmt =
    if c == b'+'
    then record s { fmt = fmt; flags = record (s.flags) { plus = true } }
    else if c == b'-'
    then record s { fmt = fmt; flags = record (s.flags) { minus = true } }
    else if c == b' '
    then record s { fmt = fmt; flags = record (s.flags) { space = true } }
    else if c == b'#'
    then record s { fmt = fmt; flags = record (s.flags) { alternate = true } }
    else if c == b'0'
    then record s { fmt = fmt; flags = record (s.flags) { zeros = true } }
    else record s { phase = in_width }

-- The digits of a width or a precision, `limit` of them at most, and what follows.
pub field : ℕ → List ℕ → List ℕ × List ℕ
field zero fmt = ([], fmt)
field (suc limit) [] = ([], [])
field (suc limit) (c ∷ fmt) =
    let (ds, rest) = field limit fmt in if is_digit c then (c ∷ ds, rest) else ([], c ∷ fmt)

-- `case SPECIFIER_WIDTH`. The array has `str_size` places, so the 0 behind that many digits is
-- written outside of it.
pub step_width : ℕ → Printing → Option Printing
unfolding field
step_width str_size s =
    let (ds, rest) = field str_size s.fmt in
    if length ds == str_size then none else elim rest [
      | [] ↦ some (record s { fmt = []; width_str = ds; phase = in_type })
      | c ∷ more ↦
          if c == b'.'
          then some (record s { fmt = more; width_str = ds; phase = in_precision })
          else some (record s { fmt = c ∷ more; width_str = ds; phase = in_type })
    ]

-- `case SPECIFIER_PRECISION`.
pub step_precision : ℕ → Printing → Option Printing
unfolding field
step_precision str_size s =
    let (ds, rest) = field str_size s.fmt in
    if length ds == str_size
    then none
    else some (record s { fmt = rest; precision_str = ds; phase = in_type })

-- One round, for a format that is not at its end.
pub step : ℕ → Printing → Phase → ℕ → List ℕ → Option Printing
unfolding step_outside step_flags step_width step_precision step_type
step str_size s outside c fmt = some (step_outside s c fmt)
step str_size s in_flags c fmt = some (step_flags s c fmt)
step str_size s in_width c fmt = step_width str_size s
step str_size s in_precision c fmt = step_precision str_size s
step str_size s in_type c fmt = step_type s c fmt

-- `astray` is for a step that leaves the format or the buffer, where C defines no further behaviour; a
-- number that is written past the size is part of the text.
pub data Printed : Type 0 where
  printed : List ℕ → Printed
  astray : Printed
  out_of_fuel : Printed

-- `size - 1` as a `size_t`.
abbrev pub room : ℕ → ℕ
room size = (size + 2 ^ 32 - 1) % 2 ^ 32

-- The loop, on fuel.
unfoldable pub print_loop : ℕ → ℕ → ℕ → Printing → Printed
unfolding step
print_loop zero str_size size s = out_of_fuel
print_loop (suc fuel) str_size size s = elim s.fmt [
  | [] ↦ printed s.out
  | c ∷ fmt ↦ elim (ltb (length s.out) (room size)) [
    | false ↦ printed s.out
    | true ↦ elim (step str_size s s.phase c fmt) [
      | none ↦ astray
      | some s' ↦ print_loop fuel str_size size s'
    ]
  ]
]

abbrev pub no_flags : Flags
no_flags = record { plus = false; minus = false; space = false; alternate = false; zeros = false }

abbrev pub starting : ℕ → List ℕ → List Arg → Printing
starting size fmt args = record {
  fmt = fmt;
  out = [];
  remain = to_long (pos (room size));
  phase = outside;
  flags = no_flags;
  width_str = [];
  precision_str = [];
  args = args;
}

-- BUFSIZ is 512. Each character takes five rounds at most.
unfoldable pub vsnprintf : ℕ → List ℕ → List Arg → Printed
vsnprintf size fmt args =
    print_loop (5 * length fmt + 1) (min size 256) size (starting size fmt args)
