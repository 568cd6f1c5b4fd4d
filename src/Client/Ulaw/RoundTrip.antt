-- ===== src/Client/Ulaw/RoundTrip.antt =====
-- Proofs on linearToULaw and ulawToLinear together.
use skype7_reborn.Prelude.{
  ℕ, zero, suc, ◌+◌, ◌-◌, ◌*◌, ◌/◌, ◌%◌, ◌^◌, ◌≤◌, ◌<◌, Bool, true, ◌&&◌, ◌||◌, ◌≡◌, refl, List, [],
  ◌∷◌, ltb, nat_eq, arith, if◌then◌else◌, not,
}
use mathlib.Core.Path.{ap₂}
use skype7_reborn.Prelude.Table.Rows.{Every}
use skype7_reborn.Prelude.Int.{ℤ, pos, negsuc, magnitude, minus}
use skype7_reborn.Client.Ulaw.{
  linear_to_ulaw, ulaw_to_linear, biased, expanded, exponent_of, exponent_from, clip, sign_bit,
  encode_pcmu_frame, decode_pcmu_frame,
}

exponent_small :
    (s : ℕ)
    → 132 ≤ s
    → s < 32768
    → (128 * 2 ^ exponent_of s ≤ s) × (s < 256 * 2 ^ exponent_of s) × (exponent_of s ≤ 7)
unfolding exponent_of exponent_from
exponent_small s lo hi = ground arith

-- The byte without its complement.
abbrev packed : ℕ → ℕ → ℕ → ℕ
packed b e m = b * 128 + e * 16 + m / 2 ^ (e + 3) % 16

-- What a byte of exponent `e` expands to: the middle of the step that it was coded from.
expanded-packed :
    (b e m : ℕ)
    → b ≤ 1
    → e ≤ 7
    → 128 * 2 ^ e ≤ m
    → m < 256 * 2 ^ e
    → (expanded (packed b e m) + 132 ≤ m + 4 * 2 ^ e)
      × (m ≤ expanded (packed b e m) + 132 + 4 * 2 ^ e)
      × (packed b e m ≤ 255)
      × (packed b e m / 128 % 2 ≡ b)
unfolding expanded
expanded-packed b zero m hb he lo hi = ground arith
expanded-packed b (suc zero) m hb he lo hi = ground arith
expanded-packed b (suc (suc zero)) m hb he lo hi = ground arith
expanded-packed b (suc (suc (suc zero))) m hb he lo hi = ground arith
expanded-packed b (suc (suc (suc (suc zero)))) m hb he lo hi = ground arith
expanded-packed b (suc (suc (suc (suc (suc zero))))) m hb he lo hi = ground arith
expanded-packed b (suc (suc (suc (suc (suc (suc zero)))))) m hb he lo hi = ground arith
expanded-packed b (suc (suc (suc (suc (suc (suc (suc zero))))))) m hb he lo hi = ground arith
expanded-packed b (suc (suc (suc (suc (suc (suc (suc (suc e)))))))) m hb he lo hi =
    absurd (omega arith)

decoded :
    (b e m : ℕ)
    → b ≤ 1
    → packed b e m ≤ 255
    → packed b e m / 128 % 2 ≡ b
    → ulaw_to_linear (255 - packed b e m)
      ≡ (if nat_eq b 0 then pos (expanded (packed b e m)) else minus (expanded (packed b e m)))
unfolding ulaw_to_linear
decoded b e m hb hp hs = rw (the_same (packed b e m) hp) (rw hs refl)
  where
    the_same : (n : ℕ) → n ≤ 255 → 255 - (255 - n) ≡ n
    the_same n h = omega arith

-- The magnitude that a sample is limited to.
abbrev pub clipped : ℤ → ℕ
clipped sample = if ltb clip (magnitude sample) then clip else magnitude sample

-- A number with the sign of a sample.
abbrev pub signed_as : ℤ → ℕ → ℤ
signed_as (pos _) n = pos n
signed_as (negsuc _) n = minus n

biased-bounds : (sample : ℤ) → (biased sample ≡ clipped sample + 132) × (biased sample < 32768)
unfolding biased
biased-bounds sample = (refl, ground arith)

magnitude-signed_as : (sample : ℤ) (n : ℕ) → magnitude (signed_as sample n) ≡ n
magnitude-signed_as (pos _) n = refl
magnitude-signed_as (negsuc _) zero = refl
magnitude-signed_as (negsuc _) (suc n) = refl

coded :
    (sample : ℤ) (b : ℕ)
    → b ≤ 1
    → sign_bit sample ≡ b * 128
    → linear_to_ulaw sample ≡ 255 - packed b (exponent_of (biased sample)) (biased sample)
unfolding linear_to_ulaw
coded sample b small h = rw h refl

-- What comes back for a sample whose sign is `b`.
recovered :
    (sample : ℤ) (b : ℕ)
    → b ≤ 1
    → sign_bit sample ≡ b * 128
    → (n : ℕ) × (ulaw_to_linear (linear_to_ulaw sample) ≡ (if nat_eq b 0 then pos n else minus n))
      × (32 * (n - clipped sample) ≤ clipped sample + 132)
      × (32 * (clipped sample - n) ≤ clipped sample + 132)
recovered sample b small h =
    let m = biased sample in
    let e = exponent_of m in
    let (same, below) = biased-bounds sample in
    let (lo, hi, few) = exponent_small m (omega (arith, same)) below in
    let (left, right, fits, sign) = expanded-packed b e m small few lo hi in
    (
      expanded (packed b e m),
      rw (coded sample b small h) (decoded b e m small fits sign),
      omega (arith, left, right, lo, same),
      omega (arith, left, right, lo, same),
    )

-- A sample that is coded and decoded keeps its sign, and its magnitude, cut at 32635, changes by at
-- most a 32nd part of itself and a constant: 32 times the change is at most the magnitude and 132.
pub ulaw_to_linear-linear_to_ulaw :
    (sample : ℤ)
    → (n : ℕ) × (ulaw_to_linear (linear_to_ulaw sample) ≡ signed_as sample n)
      × (32 * (n - clipped sample) ≤ clipped sample + 132)
      × (32 * (clipped sample - n) ≤ clipped sample + 132)
ulaw_to_linear-linear_to_ulaw (pos k) = recovered (pos k) 0 (omega arith) refl
ulaw_to_linear-linear_to_ulaw (negsuc k) = recovered (negsuc k) 1 (omega arith) refl

all_below : ℕ → (ℕ → Bool) → Bool
all_below zero p = true
all_below (suc n) p = p n && all_below n p

all_below-holds : (n : ℕ) (p : ℕ → Bool) (x : ℕ) → all_below n p ≡ true → x < n → p x ≡ true
unfolding all_below
all_below-holds zero p x h lt = absurd (omega arith)
all_below-holds (suc n) p x h lt = ground (arith, all_below-holds n p x)

-- Every byte but the one that stands for a negative zero.
abbrev pub is_code : ℕ → Bool
is_code u = ltb u 256 && not (nat_eq u 127)

code_table :
    all_below 256 (λ u. nat_eq u 127 || nat_eq (linear_to_ulaw (ulaw_to_linear u)) u) ≡ true
unfolding all_below linear_to_ulaw ulaw_to_linear expanded biased exponent_of exponent_from
code_table = refl

linear_to_ulaw-code : (u : ℕ) → is_code u ≡ true → linear_to_ulaw (ulaw_to_linear u) ≡ u
linear_to_ulaw-code u h = ground (
  arith,
  all_below-holds 256 (λ u. nat_eq u 127 || nat_eq (linear_to_ulaw (ulaw_to_linear u)) u) u
      code_table,
)

-- A frame of bytes other than 127, the code of a negative zero, is its own code after decoding.
pub encode_pcmu_frame-decode_pcmu_frame :
    (frame : List ℕ) → Every is_code frame → encode_pcmu_frame (decode_pcmu_frame frame) ≡ frame
unfolding encode_pcmu_frame decode_pcmu_frame
encode_pcmu_frame-decode_pcmu_frame [] h = refl
encode_pcmu_frame-decode_pcmu_frame (u ∷ us) h =
    ap₂ ◌∷◌ (linear_to_ulaw-code u h.0) (encode_pcmu_frame-decode_pcmu_frame us h.1)
