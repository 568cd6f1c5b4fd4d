-- ===== src/Prelude/Hex.antt =====
-- hex.DecodeString, and that it reads back what hex.EncodeToString writes.
use Prim.Native.Nat.{ℕ, zero, suc, ◌-◌, ◌+◌, ◌*◌, ◌/◌, ◌%◌, ◌<◌}
use Prim.Native.Char.{Char, code}
use Prim.Native.String.{String}
use mathlib.Core.Path.{◌≡◌, refl, ap, ap₂, ◌∙◌}
use mathlib.Core.Bool.{◌&&◌}
use mathlib.Core.Option.{Option, none, some}
use mathlib.Core.List.{List, [], ◌∷◌}
use text.Mathlib.TextLemmas.{cons-append, nil-append}
use native.Mathlib.Omega.{arith}
use skype7_reborn.Prelude.Core.{if◌then◌else◌, leb, ltb}
use skype7_reborn.Prelude.Text.{append, hex_digit, hex_encode}
use skype7_reborn.Prelude.Table.Rows.{Every}

unfoldable pub hex_value : Char → Option ℕ
hex_value c =
    if leb b'0' (code c) && leb (code c) b'9'
    then some (code c - b'0')
    else if leb b'a' (code c) && leb (code c) b'f'
    then some (code c - b'a' + 10)
    else if leb b'A' (code c) && leb (code c) b'F'
    then some (code c - b'A' + 10)
    else none

-- A byte from its digits, in front of the bytes that follow.
unfoldable pub hex_byte : Option ℕ → Option ℕ → Option (List ℕ) → Option (List ℕ)
hex_byte (some hi) (some lo) (some bytes) = some ((hi * 16 + lo) ∷ bytes)
hex_byte _ _ _ = none

unfoldable pub hex_decode : String → Option (List ℕ)
unfolding hex_value hex_byte
hex_decode String.[] = some []
hex_decode (String.◌∷◌ c String.[]) = none
hex_decode (String.◌∷◌ c (String.◌∷◌ d s)) = hex_byte (hex_value c) (hex_value d) (hex_decode s)

-- The character of a digit.
hex_digit-cases :
    (d : ℕ) → d < 16 → (c : Char) × (hex_value c ≡ some d) × (hex_digit d ≡ String.◌∷◌ c String.[])
unfolding hex_value hex_digit
hex_digit-cases zero h = (_, refl, refl)
hex_digit-cases (suc zero) h = (_, refl, refl)
hex_digit-cases (suc (suc zero)) h = (_, refl, refl)
hex_digit-cases (suc (suc (suc zero))) h = (_, refl, refl)
hex_digit-cases (suc (suc (suc (suc zero)))) h = (_, refl, refl)
hex_digit-cases (suc (suc (suc (suc (suc zero))))) h = (_, refl, refl)
hex_digit-cases (suc (suc (suc (suc (suc (suc zero)))))) h = (_, refl, refl)
hex_digit-cases (suc (suc (suc (suc (suc (suc (suc zero))))))) h = (_, refl, refl)
hex_digit-cases (suc (suc (suc (suc (suc (suc (suc (suc zero)))))))) h = (_, refl, refl)
hex_digit-cases (suc (suc (suc (suc (suc (suc (suc (suc (suc zero))))))))) h = (_, refl, refl)
hex_digit-cases (suc (suc (suc (suc (suc (suc (suc (suc (suc (suc zero)))))))))) h = (_, refl, refl)
hex_digit-cases (suc (suc (suc (suc (suc (suc (suc (suc (suc (suc (suc zero))))))))))) h =
    (_, refl, refl)
hex_digit-cases (suc (suc (suc (suc (suc (suc (suc (suc (suc (suc (suc (suc zero)))))))))))) h =
    (_, refl, refl)
hex_digit-cases (suc (suc (suc (suc (suc (suc (suc (suc (suc (suc (suc (suc (suc zero)))))))))))))
      h =
    (_, refl, refl)
hex_digit-cases
      (suc (suc (suc (suc (suc (suc (suc (suc (suc (suc (suc (suc (suc (suc zero)))))))))))))) h =
    (_, refl, refl)
hex_digit-cases
      (suc (suc (suc (suc (suc (suc (suc (suc (suc (suc (suc (suc (suc (suc (suc zero)))))))))))))))
      h =
    (_, refl, refl)
hex_digit-cases
      (suc
        (suc (suc (suc (suc (suc (suc (suc (suc (suc (suc (suc (suc (suc (suc (suc x))))))))))))))))
      h =
    absurd (omega (arith, h))

byte_digits : (b : ℕ) → b < 256 → (b / 16 < 16) × (b % 16 < 16) × (b / 16 * 16 + b % 16 ≡ b)
byte_digits b h = (omega arith, omega arith, omega arith)

one-append : (c : Char) (s : String) → append (String.◌∷◌ c String.[]) s ≡ String.◌∷◌ c s
one-append c s = cons-append c String.[] s ∙ ap (String.◌∷◌ c) (nil-append s)

-- Two digits in front of a text.
hex_decode-digits :
    (hi lo : ℕ) (s : String)
    → hi < 16
    → lo < 16
    → hex_decode (append (hex_digit hi) (append (hex_digit lo) s))
      ≡ hex_byte (some hi) (some lo) (hex_decode s)
unfolding hex_decode
hex_decode-digits hi lo s h l =
    let (c, value_c, digit_c) = hex_digit-cases hi h in
    let (d, value_d, digit_d) = hex_digit-cases lo l in
    ap₂ (λ x y. hex_decode (append x (append y s))) digit_c digit_d
    ∙ ap hex_decode (one-append c _ ∙ ap (String.◌∷◌ c) (one-append d s))
    ∙ ap₂ (λ x y. hex_byte x y (hex_decode s)) value_c value_d

pub hex_decode-hex_encode :
    (bytes : List ℕ) → Every (λ b. ltb b 256) bytes → hex_decode (hex_encode bytes) ≡ some bytes
unfolding hex_encode hex_decode
hex_decode-hex_encode [] h = refl
hex_decode-hex_encode (b ∷ bytes) (small, h) =
    let (hi, lo, whole) = byte_digits b (ground (arith, small)) in
    hex_decode-digits (b / 16) (b % 16) (hex_encode bytes) hi lo
    ∙ ap (hex_byte (some (b / 16)) (some (b % 16))) (hex_decode-hex_encode bytes h)
    ∙ ap (λ x. some (x ∷ bytes)) whole
