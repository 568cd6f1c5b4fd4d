-- ===== src/Client/Ulaw.antt =====
-- The codec of native_client/internal/chat/audio.go: linearToULaw, ulawToLinear, encodePCMUFrame,
-- decodePCMUFrame. A shift is a product or a quotient by a power of two, `s & mask` for a mask of one
-- bit is that bit, and `^u` of a byte is 255 - u.
pub mod RoundTrip
use skype7_reborn.Prelude.{
  ℕ, zero, suc, ◌+◌, ◌-◌, ◌*◌, ◌/◌, ◌%◌, ◌^◌, List, map, ltb, nat_eq, if◌then◌else◌,
}
use skype7_reborn.Prelude.Int.{ℤ, pos, negsuc, magnitude, minus}

abbrev pub bias : ℕ
bias = 0x84

abbrev pub clip : ℕ
clip = 32635

-- The loop on `mask` and `exponent`, from the exponent on.
unfoldable pub exponent_from : ℕ → ℕ → ℕ → ℕ
exponent_from s mask zero = 0
exponent_from s mask (suc e) =
    let rest = exponent_from s (mask / 2) e in if nat_eq (s / mask % 2) 0 then rest else suc e

unfoldable pub exponent_of : ℕ → ℕ
unfolding exponent_from
exponent_of s = exponent_from s 0x4000 7

abbrev pub sign_bit : ℤ → ℕ
sign_bit (pos n) = 0
sign_bit (negsuc n) = 0x80

-- The magnitude that is coded, with the bias.
unfoldable pub biased : ℤ → ℕ
biased sample = (if ltb clip (magnitude sample) then clip else magnitude sample) + bias

unfoldable pub linear_to_ulaw : ℤ → ℕ
linear_to_ulaw sample =
    let s = biased sample in
    let exponent = exponent_of s in
    let mantissa = s / 2 ^ (exponent + 3) % 16 in 255 - (sign_bit sample + exponent * 16 + mantissa)

-- The magnitude of the sample that a complemented byte stands for.
unfoldable pub expanded : ℕ → ℕ
expanded v = (v % 16 * 8 + 0x84) * 2 ^ (v / 16 % 8) - 0x84

unfoldable pub ulaw_to_linear : ℕ → ℤ
unfolding expanded
ulaw_to_linear u =
    let v = 255 - u in if nat_eq (v / 128 % 2) 0 then pos (expanded v) else minus (expanded v)

unfoldable pub encode_pcmu_frame : List ℤ → List ℕ
encode_pcmu_frame pcm = map linear_to_ulaw pcm

unfoldable pub decode_pcmu_frame : List ℕ → List ℤ
decode_pcmu_frame u = map ulaw_to_linear u
