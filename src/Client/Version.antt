-- ===== src/Client/Version.antt =====
-- The version numbers of native_client/internal/updater/manifest.go: IsNewer, parseVersion, preRelease.
pub mod Order
use Prim.Native.Char.{code}
use skype7_reborn.Prelude.{
  ℕ, zero, suc, ◌+◌, ◌-◌, ◌*◌, String, Bool, true, false, not, ◌&&◌, ◌||◌, Option, none, some, List,
  [], ◌∷◌, ◌==◌, ltb, nat_eq, if◌then◌else◌,
}
use skype7_reborn.Prelude.Text.{trim_space, trim_prefix, is_digit, cut}

-- strings.SplitN with a separator of one character: at most n parts.
unfoldable pub split_n : ℕ → ℕ → String → List String
split_n zero sep s = []
split_n (suc zero) sep s = s ∷ []
split_n (suc (suc n)) sep s = elim (cut sep s) [
  | none ↦ s ∷ []
  | some (a, b) ↦ a ∷ split_n (suc n) sep b
]

-- strings.IndexAny(s, "-+"), as what stands before the character found and after it.
unfoldable pub cut_suffix : String → Option (String × String)
cut_suffix String.[] = none
cut_suffix (String.◌∷◌ c s) =
    if nat_eq (code c) b'-' || nat_eq (code c) b'+'
    then some ("", s)
    else elim (cut_suffix s) [ none ↦ none | some (a, b) ↦ some (String.◌∷◌ c a, b) ]

-- The number that the digits of a text add to, after the digits before it.
unfoldable pub digits_from : ℕ → String → Option ℕ
digits_from n String.[] = some n
digits_from n (String.◌∷◌ c s) =
    let rest = digits_from (n * 10 + (code c - b'0')) s in if is_digit c then rest else none

-- strconv.Atoi of a text without a sign: parseVersion cuts its argument before the first - or +. An
-- `int` has 64 bits.
unfoldable pub atoi : String → Option ℕ
unfolding digits_from
atoi s = if s == "" then none else elim (digits_from 0 s) [
  | none ↦ none
  | some n ↦ if ltb n 0x8000000000000000 then some n else none
]

pub record Numbers : Type 0 where
  pub major : ℕ
  pub minor : ℕ
  pub patch : ℕ

unfoldable pub bare : String → String
bare v = trim_space (trim_prefix "v" (trim_space v))

-- One round of parseVersion's loop, and what follows it.
unfoldable pub then_part {ℓ} : {A : Type ℓ} → String → (ℕ → Option A) → Option A
unfolding atoi
then_part s f = elim (atoi s) [ none ↦ none | some n ↦ f n ]

-- The loop over the parts; a part that is missing leaves a 0.
unfoldable pub numbers : List String → Option Numbers
unfolding then_part
numbers [] = none
numbers (a ∷ []) = then_part a (λ x. some (record { major = x; minor = 0; patch = 0 }))
numbers (a ∷ b ∷ []) =
    then_part a (λ x. then_part b (λ y. some (record { major = x; minor = y; patch = 0 })))
numbers (a ∷ b ∷ c ∷ more) =
    then_part a
      (λ x. then_part b (λ y. then_part c (λ z. some (record { major = x; minor = y; patch = z }))))

unfoldable pub release : String → String
unfolding cut_suffix
release v = elim (cut_suffix v) [ none ↦ v | some (before, after) ↦ before ]

unfoldable pub parse_version : String → Option Numbers
unfolding bare release split_n numbers
parse_version v = numbers (split_n 3 b'.' (release (bare v)))

unfoldable pub pre_release : String → String
unfolding bare cut_suffix
pre_release v = elim (cut_suffix (bare v)) [ none ↦ "" | some (before, after) ↦ after ]

-- One round of IsNewer's loop, with what follows it.
unfoldable pub compare_part : ℕ → ℕ → Bool → Bool
compare_part la cu rest = if ltb cu la then true else if ltb la cu then false else rest

-- The loop over the three numbers, then the pre-releases.
unfoldable pub newer_numbers : Numbers → Numbers → String → String → Bool
unfolding compare_part
newer_numbers la cu l_pre c_pre = compare_part la.major cu.major (
    compare_part la.minor cu.minor
      (compare_part la.patch cu.patch (l_pre == "" && not (c_pre == ""))))

unfoldable pub is_newer : String → String → Bool
is_newer latest current =
    let unparsed = not (trim_space latest == "") && not (latest == current) in
    elim (parse_version latest) [
      | none ↦ unparsed
      | some la ↦ elim (parse_version current) [
        | none ↦ unparsed
        | some cu ↦ newer_numbers la cu (pre_release latest) (pre_release current)
      ]
    ]
