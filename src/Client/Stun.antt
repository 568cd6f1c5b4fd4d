-- ===== src/Client/Stun.antt =====
-- parseSTUNMappedAddress of native_client/internal/sentinel/networking.go. An index or a slice that is
-- out of range, where Go panics, is `none`; so is a loop that is cut off by its fuel.
pub mod Total
use Prim.Native.Nat.{bit_xor}
use skype7_reborn.Prelude.{
  ℕ, zero, suc, ◌+◌, ◌-◌, ◌*◌, ◌/◌, ◌%◌, ◌^◌, String, Option, none, some, List, [], ◌∷◌, ltb,
  nat_eq, length, if◌then◌else◌,
}
use skype7_reborn.Prelude.Text.{append, decimal}

abbrev pub Bytes : Type 0
Bytes = List ℕ

-- buf[i]
unfoldable pub at : Bytes → ℕ → Option ℕ
at [] i = none
at (b ∷ bs) zero = some b
at (b ∷ bs) (suc i) = at bs i

infixl 5 ◌>>=◌
abbrev pub ◌>>=◌ {ℓ κ} : {A : Type ℓ} {B : Type κ} → Option A → (A → Option B) → Option B
none >>= f = none
(some a) >>= f = f a

-- binary.BigEndian.Uint16 and Uint32 of the slice from i on
unfoldable pub uint16 : Bytes → ℕ → Option ℕ
unfolding at
uint16 buf i = at buf i >>= λ a. at buf (i + 1) >>= λ b. some (a * 256 + b)

unfoldable pub uint32 : Bytes → ℕ → Option ℕ
unfolding uint16
uint32 buf i = uint16 buf i >>= λ a. uint16 buf (i + 2) >>= λ b. some (a * 65536 + b)

abbrev pub magic : ℕ
magic = 0x2112A442

-- fmt.Sprintf("%d.%d.%d.%d:%d", …)
unfoldable pub dotted : ℕ → ℕ → ℕ → ℕ → ℕ → String
dotted a b c d port = append (decimal a) (
    append "." (
      append (decimal b) (
        append "."
          (append (decimal c) (append "." (append (decimal d) (append ":" (decimal port))))))))

unfoldable pub dotted_word : ℕ → ℕ → String
unfolding dotted
dotted_word ip port =
    dotted (ip / 2 ^ 24 % 256) (ip / 2 ^ 16 % 256) (ip / 2 ^ 8 % 256) (ip % 256) port

unfoldable pub xor_mapped : Bytes → ℕ → Option String
unfolding uint32 dotted_word
xor_mapped buf val_start = uint16 buf (val_start + 2) >>= λ port.
    uint32 buf (val_start + 4) >>= λ ip.
    some (dotted_word (bit_xor ip magic) (bit_xor port (magic / 2 ^ 16)))

unfoldable pub mapped : Bytes → ℕ → Option String
unfolding uint16 dotted
mapped buf val_start = uint16 buf (val_start + 2) >>= λ port. at buf (val_start + 4) >>= λ a.
    at buf (val_start + 5) >>= λ b.
    at buf (val_start + 6) >>= λ c. at buf (val_start + 7) >>= λ d. some (dotted a b c d port)

-- `length >= 8 && buf[valStart+1] == 0x01`, and what is returned then; `some none` goes on.
unfoldable pub if_ipv4 : Bytes → ℕ → ℕ → Option String → Option (Option String)
unfolding at
if_ipv4 buf len val_start address =
    if ltb len 8
    then some none
    else at buf (val_start + 1) >>= λ family.
        if nat_eq family 1 then (address >>= λ text. some (some text)) else some none

-- The switch on an attribute.
unfoldable pub attribute : Bytes → ℕ → ℕ → ℕ → Option (Option String)
unfolding if_ipv4 xor_mapped mapped
attribute buf attr len val_start =
    if nat_eq attr 0x20
    then if_ipv4 buf len val_start (xor_mapped buf val_start)
    else if nat_eq attr 1
    then if_ipv4 buf len val_start (mapped buf val_start)
    else some none

abbrev pub pad : ℕ → ℕ
pad len = (4 - len % 4) % 4

-- The loop, from a position on.
unfoldable pub parse_from : ℕ → Bytes → ℕ → Option String
unfolding attribute uint16
parse_from zero buf pos = none
parse_from (suc fuel) buf pos =
    if ltb (length buf) (pos + 4)
    then some ""
    else uint16 buf pos >>= λ attr. uint16 buf (pos + 2) >>= λ len.
        if ltb (length buf) (pos + 4 + len)
        then some ""
        else attribute buf attr len (pos + 4) >>= λ found. elim found [
          | some text ↦ some text
          | none ↦ parse_from fuel buf (pos + 4 + len + pad len)
        ]

-- A round of the loop goes on by four bytes or more.
unfoldable pub parse_stun_mapped_address : Bytes → Option String
unfolding parse_from
parse_stun_mapped_address buf =
    if ltb (length buf) 20 then some "" else parse_from (length buf) buf 20
