-- ===== src/Printf/Tests.antt =====
-- Numbers and formats at concrete inputs.
use beeos.Prelude.{◌≡◌, [], ◌∷◌, false, arith}
use beeos.Prelude.Int.{pos, negsuc}
use beeos.Numerals.{atoi}
use beeos.Printf.{imaxtoa}
use beeos.Printf.RoundTrip.{atoi-imaxtoa}
use beeos.Printf.Formats.{num, printed, vsnprintf}
use beeos.Printf.Formats.Plain.{vsnprintf-decimal}

atoi-imaxtoa_example : atoi (imaxtoa (negsuc 41) 10 false 0) ≡ negsuc 41
atoi-imaxtoa_example = atoi-imaxtoa (negsuc 41) (omega arith) (omega arith)

vsnprintf-decimal_example :
    (vsnprintf 3 (b'%' ∷ b'd' ∷ []) (num 12345 ∷ []) ≡ printed (imaxtoa (pos 12345) 10 false 0))
    × (atoi (imaxtoa (pos 12345) 10 false 0) ≡ pos 12345)
vsnprintf-decimal_example = vsnprintf-decimal 3 12345 (omega arith) (omega arith)
