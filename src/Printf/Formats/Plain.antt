-- ===== src/Printf/Formats/Plain.antt =====
-- libc/src/stdio/vsnprintf.c: what `vsnprintf` makes of plain text and of one number.
use beeos.Prelude.{
  ℕ, zero, suc, ◌+◌, ◌-◌, ◌*◌, ◌^◌, ◌≤◌, ◌<◌, ◌≡◌, ◌≢◌, refl, ap, sym, ◌∙◌, inl, inr, true, false,
  not, ◌||◌, some, List, [], ◌∷◌, ◌++◌, append_assoc, append-nil, arith, ltb, ◌==◌, length,
  length-append, take, take-nil, min, All, Bool-cases,
}
use beeos.Prelude.Int.{ℤ, pos, negsuc, pos_part, neg_part, sub_ℕ, to_long}
use beeos.Numerals.{is_digit, atoi}
use beeos.Printf.{imaxtoa, count_digits, uimaxtoa_size, imaxtoa_fill, imaxtoa_size}
use beeos.Printf.Widths.{padded-zero}
use beeos.Printf.RoundTrip.{atoi-imaxtoa}
use beeos.Printf.Formats.{
  Phase, outside, in_flags, in_width, in_type, Arg, num, Printing, Conversion, conversion, convert,
  field, step_outside, step_flags, step_width, step_type, step, printed, alignment, filler,
  remaining, print_loop, room, starting, vsnprintf,
}

-- A round that is made.
print_loop-step :
    (fuel str_size size : ℕ) (s : Printing) (c : ℕ) (fmt : List ℕ) (phase : Phase) (s' : Printing)
    → ltb (length s.out) (room size) ≡ true
    → let t = record s { fmt = c ∷ fmt; phase = phase } in
      step str_size t phase c fmt ≡ some s'
      → print_loop (suc fuel) str_size size t ≡ print_loop fuel str_size size s'
unfolding print_loop
print_loop-step fuel str_size size s c fmt phase s' more e = rw (more, e, print_loop) refl

one_less : ℤ → ℤ
one_less r = to_long (sub_ℕ (pos_part r) (neg_part r + 1))

step_outside-plain :
    (s : Printing) (c : ℕ) (fmt : List ℕ)
    → c ≢ b'%'
    → step_outside s c fmt
      ≡ record s { fmt = fmt; out = s.out ++ (c ∷ []); remain = one_less s.remain }
unfolding step_outside one_less
step_outside-plain s c fmt ne = let other : not (c == b'%') ≡ true = ground arith in rw other refl

take-suc : (n : ℕ) (c : ℕ) (cs : List ℕ) → 0 < n → take n (c ∷ cs) ≡ c ∷ take (n - 1) cs
take-suc zero c cs h = absurd (omega arith)
take-suc (suc n) c cs h = ap (λ k. c ∷ take k cs) (omega arith)

print_loop-plain :
    (fuel str_size size : ℕ) (s : Printing) (fmt out : List ℕ) (remain : ℤ)
    → All (λ c. c ≢ b'%') fmt
    → length fmt < fuel
    → length out ≤ room size
    → print_loop fuel str_size size
        (record s { fmt = fmt; out = out; remain = remain; phase = outside })
      ≡ printed (out ++ take (room size - length out) fmt)
unfolding print_loop step
print_loop-plain zero str_size size s fmt out remain plain lt le = absurd (omega arith)
print_loop-plain (suc fuel) str_size size s [] out remain plain lt le =
    ap (λ l. printed l)
      (sym (append-nil out) ∙ ap (λ l. out ++ l) (sym (take-nil (room size - length out))))
print_loop-plain (suc fuel) str_size size s (c ∷ fmt) out remain (pc, plain) lt le =
    let t : Printing = record s { out = out; remain = remain } in
    elim (Bool-cases (ltb (length out) (room size))) [
      | inl more ↦
          let out' = out ++ (c ∷ []) in
          let len = length-append out (c ∷ []) in
          print_loop-step fuel str_size size t c fmt outside
            (record s { fmt = fmt; out = out'; remain = one_less remain; phase = outside }) more
            (ap (λ u. some u)
              (step_outside-plain (record t { fmt = c ∷ fmt; phase = outside }) c fmt pc))
          ∙ print_loop-plain fuel str_size size s fmt out' (one_less remain) plain (omega arith)
              (ground (arith, len))
          ∙ ap (λ l. printed l)
              (append_assoc out (c ∷ []) (take (room size - length out') fmt)
                ∙ ap (λ l. out ++ l)
                    (ap (λ k. c ∷ take k fmt) (omega (arith, len))
                      ∙ sym (take-suc (room size - length out) c fmt (ground arith))))
      | inr full ↦
          let none_left : room size - length out ≡ 0 = ground arith in
          rw (full, print_loop)
            (ap (λ l. printed l)
              (sym (append-nil out) ∙ ap (λ k. out ++ take k (c ∷ fmt)) (sym none_left)))
    ]

-- A format without a directive is copied, and cut off one byte in front of the size.
pub vsnprintf-plain :
    (size : ℕ) (fmt : List ℕ) (args : List Arg)
    → 0 < size
    → size < 2 ^ 32
    → All (λ c. c ≢ b'%') fmt
    → vsnprintf size fmt args ≡ printed (take (size - 1) fmt)
unfolding vsnprintf
vsnprintf-plain size fmt args some_room small plain =
    let e : room size ≡ size - 1 = omega arith in
    print_loop-plain (5 * length fmt + 1) (min size 256) size (starting size fmt args) fmt []
      (to_long (pos (room size))) plain (omega arith) (omega arith)
    ∙ ap (λ k. printed (take k fmt)) (omega arith)

uimaxtoa_size-pos : (n base : ℕ) → 0 < uimaxtoa_size n base
unfolding uimaxtoa_size count_digits
uimaxtoa_size-pos n base = ground arith

imaxtoa_size-pos : (i : ℤ) (base : ℕ) → 0 < imaxtoa_size i base
unfolding imaxtoa_size
imaxtoa_size-pos (pos n) base = uimaxtoa_size-pos n base
imaxtoa_size-pos (negsuc n) base = omega arith

field_none : (k c : ℕ) (fmt : List ℕ) → is_digit c ≡ false → field (suc k) (c ∷ fmt) ≡ ([], c ∷ fmt)
unfolding field
field_none k c fmt e = rw e refl

step_width-nothing :
    (k : ℕ) (s : Printing) (c : ℕ) (fmt : List ℕ)
    → (is_digit c || (c == b'.')) ≡ false
    → step_width (suc k) (record s { fmt = c ∷ fmt; phase = in_width })
      ≡ some (record s { fmt = c ∷ fmt; width_str = []; phase = in_type })
unfolding step_width
step_width-nothing k s c fmt other =
    let digit : is_digit c ≡ false = ground arith in
    let dot : (c == b'.') ≡ false = ground arith in
    let e : (0 == suc k) ≡ false = ground arith in
    let unread = field_none k c fmt digit in
    rw (unread, step_width)
      (rw e (
        rw dot
          (ap (λ p. some (record s { fmt = c ∷ fmt; width_str = p.0; phase = in_type })) unread)))

-- The rounds for `%d`.
print_loop-decimal :
    (k size v : ℕ)
    → ltb 0 (room size) ≡ true
    → print_loop 11 (suc k) size (starting size (b'%' ∷ b'd' ∷ []) (num v ∷ []))
      ≡ printed (imaxtoa_fill (to_long (pos v)) 10 false (pos 0) b' ' (to_long (pos (room size))))
unfolding print_loop step step_outside step_flags step_width step_type field conversion convert
    alignment filler remaining atoi
print_loop-decimal k size v more =
    let s = starting size (b'%' ∷ b'd' ∷ []) (num v ∷ []) in
    let digits = imaxtoa_fill (to_long (pos v)) 10 false (pos 0) b' ' (to_long (pos (room size))) in
    let s1 : Printing = record s { fmt = b'd' ∷ []; phase = in_flags } in
    let s2 : Printing = record s { fmt = b'd' ∷ []; phase = in_width } in
    let s3 : Printing = record s { fmt = b'd' ∷ []; phase = in_type } in
    print_loop-step 10 (suc k) size s b'%' (b'd' ∷ []) outside s1 more refl
    ∙ print_loop-step 9 (suc k) size s b'd' [] in_flags s2 more refl
    ∙ print_loop-step 8 (suc k) size s b'd' [] in_width s3 more
        (step_width-nothing k s b'd' [] refl)
    ∙ print_loop-step 7 (suc k) size s b'd' [] in_type
        (record s {
          fmt = [];
          out = digits;
          remain = remaining s.remain Conversion.decimal (length digits);
          args = [];
        })
        more refl

to_long_bounds :
    (v : ℕ) → (pos_part (to_long (pos v)) < 2 ^ 31) × (neg_part (to_long (pos v)) ≤ 2 ^ 31)
to_long_bounds v = ground arith

-- For a size from 2 to 2 ^ 31 `%d` writes the whole number, past the size where it has more
-- characters than that leaves room for, and `atoi` reads the number back.
pub vsnprintf-decimal :
    (size v : ℕ)
    → 2 ≤ size
    → size ≤ 2 ^ 31
    → (vsnprintf size (b'%' ∷ b'd' ∷ []) (num v ∷ [])
        ≡ printed (imaxtoa (to_long (pos v)) 10 false 0))
      × (atoi (imaxtoa (to_long (pos v)) 10 false 0) ≡ to_long (pos v))
unfolding vsnprintf imaxtoa_fill
vsnprintf-decimal size v two small =
    let i = to_long (pos v) in
    let k : min size 256 ≡ suc (min size 256 - 1) = omega arith in
    let left : to_long (pos (room size)) ≡ pos (size - 1) = ground arith in
    let (hi, lo) = to_long_bounds v in
    (
      rw k (print_loop-decimal (min size 256 - 1) size v (ground arith))
          ∙ ap (λ r. printed (imaxtoa_fill i 10 false (pos 0) b' ' r)) left
          ∙ ap (λ l. printed l)
              (padded-zero (imaxtoa_size i 10) (imaxtoa i 10 false) b' ' (size - 1)
                (imaxtoa_size-pos i 10)),
      atoi-imaxtoa i hi lo,
    )
