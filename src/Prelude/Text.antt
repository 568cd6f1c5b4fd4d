-- ===== src/Prelude/Text.antt =====
-- Go's string functions on the native texts: JSON hands the server valid UTF-8 only, so a Go string
-- is a list of characters here, and `len` counts its bytes.
use Prim.Native.Nat.{ℕ, zero, suc, ◌-◌, ◌/◌, ◌%◌}
use Prim.Native.Char.{Char, code}
use Prim.Native.String.{String, slice, char_at, len, ◌++◌ as append}
use mathlib.Core.Path.{◌≡◌, refl}
use mathlib.Core.Bool.{Bool, true, false, ◌&&◌, ◌||◌}
use mathlib.Core.Option.{Option, none, some}
use mathlib.Core.List.{List, [], ◌∷◌}
use text.Mathlib.Text.{◌==◌, starts_with}
use skype7_reborn.Prelude.Core.{if◌then◌else◌, leb, ltb, nat_eq}
pub use Prim.Native.String.{len, ◌++◌ as append}
pub use text.Mathlib.Text.{starts_with}

-- unicode.IsSpace
is_space : Char → Bool
is_space c =
    (leb 9 n && leb n 13)
    || nat_eq n 32
    || nat_eq n 0x85
    || nat_eq n 0xA0
    || nat_eq n 0x1680
    || (leb 0x2000 n && leb n 0x200A)
    || nat_eq n 0x2028
    || nat_eq n 0x2029
    || nat_eq n 0x202F
    || nat_eq n 0x205F
    || nat_eq n 0x3000
  where
    n : ℕ
    n = code c

unfoldable pub trim_left : String → String
unfolding is_space
trim_left String.[] = String.[]
trim_left (String.◌∷◌ c s) = let rest = trim_left s in if is_space c then rest else String.◌∷◌ c s

unfoldable pub trim_right : String → String
unfolding is_space
trim_right String.[] = String.[]
trim_right (String.◌∷◌ c s) =
    let rest = trim_right s in if is_space c && rest == "" then String.[] else String.◌∷◌ c rest

-- strings.TrimSpace
unfoldable pub trim_space : String → String
unfolding trim_left trim_right
trim_space s = trim_left (trim_right s)

-- unicode.ToLower on ASCII and on the two characters outside it that go to ASCII letters. Every
-- other character stays as it is: the texts that the server compares the result with are ASCII.
unfoldable pub lower : Char → Char
lower c =
    if leb 65 (code c) && leb (code c) 90
    then char_at "abcdefghijklmnopqrstuvwxyz" (code c - 65)
    else if nat_eq (code c) 0x212A
    then char_at "k" 0
    else if nat_eq (code c) 0x130
    then char_at "i" 0
    else c

-- strings.ToLower
unfoldable pub to_lower : String → String
unfolding lower
to_lower String.[] = String.[]
to_lower (String.◌∷◌ c s) = String.◌∷◌ (lower c) (to_lower s)

-- strings.EqualFold of a text with one that is ASCII, in lower case and has no i: the characters
-- outside ASCII that fold into it are the Kelvin sign and the long s.
unfoldable pub fold : Char → Char
unfolding lower
fold c = if nat_eq (code c) 0x17F then char_at "s" 0 else lower c

unfoldable pub fold_text : String → String
unfolding fold
fold_text String.[] = String.[]
fold_text (String.◌∷◌ c s) = String.◌∷◌ (fold c) (fold_text s)

-- Whether every character passes the test: the class of a regular expression.
unfoldable pub all_chars : (Char → Bool) → String → Bool
all_chars p String.[] = true
all_chars p (String.◌∷◌ c s) = if p c then all_chars p s else false

-- strings.Contains
unfoldable pub contains : String → String → Bool
contains String.[] t = t == ""
contains (String.◌∷◌ c s) t = if starts_with (String.◌∷◌ c s) t then true else contains s t

-- strings.Cut: what stands before and after the first character with this code.
unfoldable pub cut : ℕ → String → Option (String × String)
cut sep String.[] = none
cut sep (String.◌∷◌ c s) =
    if nat_eq (code c) sep
    then some ("", s)
    else elim (cut sep s) [ none ↦ none | some (a, b) ↦ some (String.◌∷◌ c a, b) ]

-- strings.Split: the parts between the characters with this code.
unfoldable pub split : ℕ → String → List String
split sep String.[] = "" ∷ []
split sep (String.◌∷◌ c s) = elim (split sep s) [
  | [] ↦ []
  | p ∷ ps ↦ if nat_eq (code c) sep then "" ∷ p ∷ ps else String.◌∷◌ c p ∷ ps
]

-- The parts between the characters that pass the test.
unfoldable pub split_where : (Char → Bool) → String → List String
split_where p String.[] = "" ∷ []
split_where p (String.◌∷◌ c s) = elim (split_where p s) [
  | [] ↦ []
  | w ∷ ws ↦ if p c then "" ∷ w ∷ ws else String.◌∷◌ c w ∷ ws
]

unfoldable pub without_empty : List String → List String
without_empty [] = []
without_empty (w ∷ ws) = let rest = without_empty ws in if w == "" then rest else w ∷ rest

-- strings.Fields
unfoldable pub fields : String → List String
unfolding split_where without_empty is_space
fields s = without_empty (split_where is_space s)

-- strings.HasSuffix
unfoldable pub ends_with : String → String → Bool
ends_with s t = leb (len t) (len s) && slice s (len s - len t) (len s) == t

-- strings.TrimPrefix
unfoldable pub trim_prefix : String → String → String
trim_prefix p s = if starts_with s p then slice s (len p) (len s) else s

unfoldable pub is_digit : Char → Bool
is_digit c = leb b'0' (code c) && leb (code c) b'9'

unfoldable pub digit : ℕ → String
digit d = slice "0123456789" d (suc d)

decimal_loop : ℕ → ℕ → String
unfolding digit
decimal_loop zero n = ""
decimal_loop (suc fuel) n =
    let rest = decimal_loop fuel (n / 10) in
    if ltb n 10 then digit n else append rest (digit (n % 10))

-- fmt.Sprintf("%d"): a number below 10 ^ f has at most f digits, and n < 10 ^ (n + 1).
unfoldable pub decimal : ℕ → String
unfolding decimal_loop
decimal n = decimal_loop (suc n) n

pad : ℕ → ℕ → String
unfolding digit
pad zero n = ""
pad (suc width) n = append (pad width (n / 10)) (digit (n % 10))

-- fmt.Sprintf("%06d") of a number below 10 ^ 6
unfoldable pub six_digits : ℕ → String
unfolding pad
six_digits n = pad 6 n

unfoldable pub hex_digit : ℕ → String
hex_digit d = slice "0123456789abcdef" d (suc d)

-- hex.EncodeToString
unfoldable pub hex_encode : List ℕ → String
unfolding hex_digit
hex_encode [] = ""
hex_encode (b ∷ bs) = append (hex_digit (b / 16)) (append (hex_digit (b % 16)) (hex_encode bs))

trimmed : trim_space "  Ab c\n" ≡ "Ab c"
unfolding trim_space
trimmed = refl

lowered : to_lower "PhAze" ≡ "phaze"
unfolding to_lower
lowered = refl

cut_once : cut b':' "old:new:er" ≡ some ("old", "new:er")
unfolding cut
cut_once = refl

shown : append (decimal 907) (six_digits 42) ≡ "907000042"
unfolding decimal six_digits
shown = refl

encoded : hex_encode (255 ∷ 1 ∷ []) ≡ "ff01"
unfolding hex_encode
encoded = refl
