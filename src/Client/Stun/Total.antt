-- ===== src/Client/Stun/Total.antt =====
-- Proofs that parseSTUNMappedAddress ends and stays within its buffer.
use skype7_reborn.Prelude.{
  ℕ, zero, suc, ◌+◌, ◌*◌, ◌≤◌, ◌<◌, String, Bool, true, false, Option, none, some, [], ◌∷◌, ltb,
  nat_eq, length, if◌then◌else◌, ◌≡◌, refl, arith,
}
use skype7_reborn.Client.Stun.{
  Bytes, at, ◌>>=◌, uint16, uint32, xor_mapped, mapped, if_ipv4, attribute, pad, parse_from,
  parse_stun_mapped_address,
}

-- A value is there: the code does not panic.
abbrev pub IsThere {ℓ} : {A : Type ℓ} → Option A → Type ℓ
IsThere {A = A} o = (a : A) × (o ≡ some a)

at-IsThere : (buf : Bytes) (i : ℕ) → i < length buf → IsThere (at buf i)
unfolding at
at-IsThere [] i h = absurd (omega (arith, h))
at-IsThere (b ∷ bs) zero h = (b, refl)
at-IsThere (b ∷ bs) (suc i) h = at-IsThere bs i (omega (arith, h))

bind-IsThere {ℓ κ} :
    {A : Type ℓ} {B : Type κ} (o : Option A) (f : A → Option B)
    → IsThere o
    → ((a : A) → IsThere (f a))
    → IsThere (o >>= f)
bind-IsThere (some a) f h k = k a
bind-IsThere none f (a, e) k = absurd (none_some e)
  where
    none_some : none ≡ some a → ⊥
    none_some e' = cc

uint16-IsThere : (buf : Bytes) (i : ℕ) → i + 2 ≤ length buf → IsThere (uint16 buf i)
unfolding uint16
uint16-IsThere buf i h = bind-IsThere (at buf i) _ (at-IsThere buf i (omega (arith, h))) (λ a.
    bind-IsThere (at buf (i + 1)) _ (at-IsThere buf (i + 1) (omega (arith, h))) (λ b. (_, refl)))

uint32-IsThere : (buf : Bytes) (i : ℕ) → i + 4 ≤ length buf → IsThere (uint32 buf i)
unfolding uint32
uint32-IsThere buf i h =
    bind-IsThere (uint16 buf i) _ (uint16-IsThere buf i (omega (arith, h))) (λ a.
      bind-IsThere (uint16 buf (i + 2)) _ (uint16-IsThere buf (i + 2) (omega (arith, h)))
        (λ b. (_, refl)))

xor_mapped-IsThere :
    (buf : Bytes) (start : ℕ) → start + 8 ≤ length buf → IsThere (xor_mapped buf start)
unfolding xor_mapped
xor_mapped-IsThere buf start h =
    bind-IsThere (uint16 buf (start + 2)) _ (uint16-IsThere buf (start + 2) (omega (arith, h)))
      (λ port.
        bind-IsThere (uint32 buf (start + 4)) _ (uint32-IsThere buf (start + 4) (omega (arith, h)))
          (λ ip. (_, refl)))

mapped-IsThere : (buf : Bytes) (start : ℕ) → start + 8 ≤ length buf → IsThere (mapped buf start)
unfolding mapped
mapped-IsThere buf start h =
    bind-IsThere (uint16 buf (start + 2)) _ (uint16-IsThere buf (start + 2) (omega (arith, h)))
      (λ port.
        bind-IsThere (at buf (start + 4)) _ (at-IsThere buf (start + 4) (omega (arith, h))) (λ a.
          bind-IsThere (at buf (start + 5)) _ (at-IsThere buf (start + 5) (omega (arith, h))) (λ b.
            bind-IsThere (at buf (start + 6)) _ (at-IsThere buf (start + 6) (omega (arith, h)))
              (λ c.
                bind-IsThere (at buf (start + 7)) _ (at-IsThere buf (start + 7) (omega (arith, h)))
                  (λ d. (_, refl))))))

if-IsThere {ℓ} :
    {A : Type ℓ} (b : Bool) (x y : Option A)
    → (b ≡ true → IsThere x)
    → (b ≡ false → IsThere y)
    → IsThere (if b then x else y)
if-IsThere true x y h k = h refl
if-IsThere false x y h k = k refl

if_ipv4-IsThere :
    (buf : Bytes) (len start : ℕ) (address : Option String)
    → start + len ≤ length buf
    → (start + 8 ≤ length buf → IsThere address)
    → IsThere (if_ipv4 buf len start address)
unfolding if_ipv4
if_ipv4-IsThere buf len start address h k =
    if-IsThere (ltb len 8) _ _ (λ short. (none, refl))
      (λ long.
        bind-IsThere (at buf (start + 1)) _
          (at-IsThere buf (start + 1) (omega (arith, h, in_room long)))
          (λ family.
            if-IsThere (nat_eq family 1) _ _
              (λ ipv4.
                bind-IsThere address _ (k (omega (arith, h, in_room long))) (λ text. (_, refl)))
              (λ other. (none, refl))))
  where
    in_room : ltb len 8 ≡ false → 8 ≤ len
    in_room e = ground (arith, e)

attribute-IsThere :
    (buf : Bytes) (attr len start : ℕ)
    → start + len ≤ length buf
    → IsThere (attribute buf attr len start)
unfolding attribute
attribute-IsThere buf attr len start h =
    if-IsThere (nat_eq attr 0x20) _ _
      (λ xored. if_ipv4-IsThere buf len start _ h (xor_mapped-IsThere buf start))
      (λ other.
        if-IsThere (nat_eq attr 1) _ _
          (λ legacy. if_ipv4-IsThere buf len start _ h (mapped-IsThere buf start))
          (λ unknown. (none, refl)))

pad-bound : (len : ℕ) → pad len ≤ 3
pad-bound len = omega arith

-- The loop ends when each round, of four bytes at least, has fuel.
parse_from-IsThere :
    (fuel : ℕ) (buf : Bytes) (pos : ℕ)
    → pos ≤ length buf + 3
    → length buf + 8 ≤ pos + 4 * fuel
    → IsThere (parse_from fuel buf pos)
unfolding parse_from
parse_from-IsThere zero buf pos near enough = absurd (omega (arith, near, enough))
parse_from-IsThere (suc fuel) buf pos near enough =
    if-IsThere (ltb (length buf) (pos + 4)) _ _ (λ over. ("", refl))
      (λ more.
        bind-IsThere (uint16 buf pos) _ (uint16-IsThere buf pos (omega (arith, fits more))) (λ attr.
          bind-IsThere (uint16 buf (pos + 2)) _
            (uint16-IsThere buf (pos + 2) (omega (arith, fits more)))
            (λ len.
              if-IsThere (ltb (length buf) (pos + 4 + len)) _ _ (λ cut. ("", refl))
                (λ whole.
                  bind-IsThere (attribute buf attr len (pos + 4)) _
                    (attribute-IsThere buf attr len (pos + 4) (within len whole))
                    (λ found. go_on len found (
                      parse_from-IsThere fuel buf (pos + 4 + len + pad len)
                        (omega (arith, within len whole, pad-bound len))
                        (omega (arith, enough))))))))
  where
    fits : ltb (length buf) (pos + 4) ≡ false → pos + 4 ≤ length buf
    fits e = ground (arith, e)

    within : (len : ℕ) → ltb (length buf) (pos + 4 + len) ≡ false → pos + 4 + len ≤ length buf
    within len e = ground (arith, e)

    go_on :
        (len : ℕ) (found : Option String)
        → IsThere (parse_from fuel buf (pos + 4 + len + pad len))
        → IsThere (elim found [
          | some text ↦ some text
          | none ↦ parse_from fuel buf (pos + 4 + len + pad len)
        ])
    go_on len (some text) later = (text, refl)
    go_on len none later = later

-- For every buffer parseSTUNMappedAddress returns a text: no index of it is out of range, and its loop
-- ends.
pub parse_stun_mapped_address-IsThere :
    (buf : Bytes) → (text : String) × (parse_stun_mapped_address buf ≡ some text)
unfolding parse_stun_mapped_address
parse_stun_mapped_address-IsThere buf =
    if-IsThere (ltb (length buf) 20) _ _ (λ short. ("", refl))
      (λ long. parse_from-IsThere (length buf) buf 20 (ground (arith, long)) (ground (arith, long)))
